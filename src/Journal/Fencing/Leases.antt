-- ===== src/Journal/Fencing/Leases.antt =====
-- BeginUpdateAttempt: a live lease keeps every other claim away.
use lofi_bot.Prelude.{ℕ, ◌<◌, ◌≡◌, ◌⊎◌, refl, arith, Option, some}
use lofi_bot.Prelude.Int.{pos_part}
use lofi_bot.Journal.Rows.{
  Time, Status, pending, running, stuck, failed, done, dead, until, Checkpoint, Attempt, Db, ok,
}
use lofi_bot.Journal.Attempts.{
  Request, busy, find_attempt, require_checkpoint_row, check_request, report_busy, resume,
  claim_or_resume, parse_lease, begin_tx, begin_update_attempt,
}

-- Somebody holds the update until a time that has not come.
pub record IsLeased (now : Time) (r : Attempt) : Type 0 where
  pub active : (r.status ≡ running) ⊎ (r.status ≡ stuck)
  pub deadline : Time
  pub leased : r.lease_until ≡ until deadline
  pub in_force : now < deadline

resume_leased :
    (q : Request) (id next now : ℕ) (s : Status) (r : Attempt) (db : Db)
    → r.status ≡ s
    → IsLeased now r
    → resume q id next now s r db ≡ report_busy r db
unfolding resume parse_lease
resume_leased q id next now running r db e l = rw l.leased (ground (arith, l.in_force))
resume_leased q id next now stuck r db e l = rw l.leased (ground (arith, l.in_force))
resume_leased q id next now done r db e l = absurd (ground (arith, l.active))
resume_leased q id next now dead r db e l = absurd (ground (arith, l.active))
resume_leased q id next now pending r db e l = absurd (ground (arith, l.active))
resume_leased q id next now failed r db e l = absurd (ground (arith, l.active))

claim_or_resume_leased :
    (q : Request) (id next now : ℕ) (r : Attempt) (db : Db)
    → IsLeased now r
    → claim_or_resume q id next now (some r) db ≡ report_busy r db
unfolding claim_or_resume
claim_or_resume_leased q id next now r db l = resume_leased q id next now r.status r db refl l

pub checkpoint_row_present :
    {o : Option Checkpoint} (c : Checkpoint) → o ≡ some c → require_checkpoint_row o ≡ ok tt
unfolding require_checkpoint_row
checkpoint_row_present c e = rw e

-- While the lease of a running or stuck attempt is in force, a valid claim of its update is told
-- `busy` with the counts of the row, and changes nothing.
pub begin_busy :
    (q : Request) (now next : ℕ) (db : Db) (c : Checkpoint) (r : Attempt)
    → check_request q now ≡ ok next
    → db.checkpoint ≡ some c
    → find_attempt db (pos_part q.update_id) ≡ some r
    → IsLeased now r
    → begin_update_attempt q now db ≡ (
      db,
      ok (record {
        disposition = busy;
        attempt_count = r.attempt_count;
        failure_count = r.failure_count;
      }),
    )
unfolding begin_update_attempt begin_tx report_busy
begin_busy q now next db c r accepted checkpoint found l = rw (
  accepted,
  checkpoint_row_present c checkpoint,
  found,
  claim_or_resume_leased q (pos_part q.update_id) next now r db l,
)
