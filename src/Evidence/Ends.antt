-- ===== src/Evidence/Ends.antt =====
-- The loops over the restarts' snapshots and over the ends of the playback.
use lofi_bot.Prelude.{
  ◌+◌, ◌≤◌, ◌<◌, ◌≡◌, refl, sym, ap, subst, ◌∙◌, arith, Bool, true, false, ◌&&◌, List, [], ◌∷◌,
  ◌++◌, Option, none, some, if◌then◌else◌,
}
use lofi_bot.Prelude.Text.{Text, text_eq, text_eq→eq}
use lofi_bot.Evidence.Records.{correlation_window, Record}
use lofi_bot.Evidence.Search.{
  Snapshots, confirms, confirmed_restart, is_media_action, is_restart, is_ended, switched_away,
  ended_snapshots, Verdict, ends_b, snapshot_between, verdict_of, unless_switched, correlates,
  or_else, verdict_if, find_end,
}
use lofi_bot.Evidence.Correlation.{IsConfirmed}
use lofi_bot.Evidence.Sound.{some-injective, FromTrace}

module _ (rs : List Record) (m : Snapshots) (from_trace : FromTrace rs m) where
  pub confirmed_restart_lem :
      (r : Record) (basename : Text)
      → confirmed_restart r basename m ≡ true
      → (c : IsConfirmed rs r basename) × (m r.seq ≡ some c.snapshot)
  unfolding confirmed_restart
  confirmed_restart_lem r basename h = go (m r.seq) refl h
    where
      go :
          (o : Option Record)
          → m r.seq ≡ o
          → (((is_media_action r.kind && is_restart r.action) && text_eq r.basename basename)
              && confirms r basename o)
            ≡ true
          → (c : IsConfirmed rs r basename) × (m r.seq ≡ some c.snapshot)
      go none e g = absurd (ground (arith, g))
      go (some s) e g =
          let (among, is_its, related) = from_trace r.seq s e in
          (
            record {
              action_kind = ground (arith, g);
              restarted = ground (arith, g);
              named = text_eq→eq r.basename basename (ground (arith, g));
              snapshot = s;
              in_trace = among;
              is_its = is_its;
              related = related;
              later = ground (arith, g);
              shows = text_eq→eq s.basename basename (ground (arith, g));
            },
            e,
          )

  -- What the body of the loop over the ends has found.
  pub record Ends (after : List Record) (b_restart : Record) (b : Text) (ended : Record)
      (rest : List Record) (immediate settled : Record) : Type 0 where
    pub end_kind : is_ended ended.kind ≡ true
    pub end_of_b : ended.last_restart_seq ≡ b_restart.seq
    pub end_named : ended.basename ≡ b
    pub not_before : b_restart.elapsed_ns ≤ ended.elapsed_ns
    pub within : ended.elapsed_ns < b_restart.elapsed_ns + correlation_window
    pub between : snapshot_between b_restart ended (m b_restart.seq) ≡ true
    pub snapshots : ended_snapshots rest ended b ≡ some (immediate, settled)
    pub stayed :
        switched_away after b_restart.elapsed_ns settled.response_elapsed_ns b ended.seq ≡ false

  correlates-Ends :
      (after : List Record) (b_restart : Record) (b : Text) (ended : Record) (rest : List Record)
      (immediate settled : Record)
      → correlates after m b_restart b ended rest ≡ some (immediate, settled)
      → Ends after b_restart b ended rest immediate settled
  unfolding correlates
  correlates-Ends after b_restart b ended rest immediate settled h =
      go (ends_b b_restart b ended && snapshot_between b_restart ended (m b_restart.seq)) refl
        (ended_snapshots rest ended b) refl h
    where
      Found : Type 0
      Found = Ends after b_restart b ended rest immediate settled

      from_ends :
          (ends_b b_restart b ended && snapshot_between b_restart ended (m b_restart.seq)) ≡ true
          → ended_snapshots rest ended b ≡ some (immediate, settled)
          → switched_away after b_restart.elapsed_ns settled.response_elapsed_ns b ended.seq ≡ false
          → Found
      from_ends e f g = record {
        end_kind = ground (arith, e);
        end_of_b = ground (arith, e);
        end_named = text_eq→eq ended.basename b (ground (arith, e));
        not_before = ground (arith, e);
        within = ground (arith, e);
        between = ground (arith, e);
        snapshots = f;
        stayed = g;
      }

      stays :
          (i s : Record)
          → ended_snapshots rest ended b ≡ some (i, s)
          → (away : Bool)
          → switched_away after b_restart.elapsed_ns s.response_elapsed_ns b ended.seq ≡ away
          → if◌then◌else◌ {A = Option (Record × Record)} away none (some (i, s))
            ≡ some (immediate, settled)
          → (ended_snapshots rest ended b ≡ some (immediate, settled))
            × (switched_away after b_restart.elapsed_ns settled.response_elapsed_ns b ended.seq
                ≡ false)
      stays i s f true e g = cc
      stays i s f false e g =
          let same : (i, s) ≡ (immediate, settled) = some-injective g in
          let is_settled : s ≡ settled = ap (λ (p : Record × Record). p.1) same in
          (
            f ∙ g,
            subst
                (λ x.
                  switched_away after b_restart.elapsed_ns x.response_elapsed_ns b ended.seq
                  ≡ false)
                is_settled e,
          )

      go :
          (guard : Bool)
          → (ends_b b_restart b ended && snapshot_between b_restart ended (m b_restart.seq)) ≡ guard
          → (o : Option (Record × Record)) → ended_snapshots rest ended b ≡ o
          → (if guard then unless_switched after b_restart b ended o else none)
            ≡ some (immediate, settled)
          → Found
      go true e (some (i, s)) f g =
          let (pair, away) =
            stays i s f (switched_away after b_restart.elapsed_ns s.response_elapsed_ns b ended.seq)
              refl g in
          from_ends e pair away
      go true e none f g = cc
      go false e o f g = cc

  -- The end that the loop found, with what lies before it and after it.
  pub record EndIn (after : List Record) (a_restart b_restart : Record) (b : Text)
      (todo : List Record) (v : Verdict) : Type 0 where
    pub middle : List Record
    pub ended : Record
    pub rest : List Record
    pub immediate : Record
    pub settled : Record
    pub split : todo ≡ middle ++ (ended ∷ rest)
    pub found : Ends after b_restart b ended rest immediate settled
    pub verdict : v ≡ verdict_of a_restart b_restart ended (immediate, settled)

  pub find_end-EndIn :
      (after : List Record) (a_restart b_restart : Record) (b : Text) (todo : List Record)
      (v : Verdict)
      → find_end after m a_restart b_restart b todo ≡ some v
      → EndIn after a_restart b_restart b todo v
  unfolding find_end
  find_end-EndIn after a_restart b_restart b [] v h = cc
  find_end-EndIn after a_restart b_restart b (r ∷ todo) v h =
      go (correlates after m b_restart b r todo) refl h
        (λ e. find_end-EndIn after a_restart b_restart b todo v e)
    where
      go :
          (o : Option (Record × Record))
          → correlates after m b_restart b r todo ≡ o
          → or_else
              (verdict_if a_restart b_restart r o)
              (find_end after m a_restart b_restart b todo)
            ≡ some v
          → (find_end after m a_restart b_restart b todo ≡ some v
              → EndIn after a_restart b_restart b todo v)
          → EndIn after a_restart b_restart b (r ∷ todo) v
      go none e f rest =
          let later = rest f in
          record {
            middle = r ∷ later.middle;
            ended = later.ended;
            rest = later.rest;
            immediate = later.immediate;
            settled = later.settled;
            split = ap (λ (rs : List Record). r ∷ rs) later.split;
            found = later.found;
            verdict = later.verdict;
          }
      go (some (i, s)) e f rest = record {
        middle = [];
        ended = r;
        rest = todo;
        immediate = i;
        settled = s;
        split = refl;
        found = correlates-Ends after b_restart b r todo i s e;
        verdict = sym (some-injective f);
      }
