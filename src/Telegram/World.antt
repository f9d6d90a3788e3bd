-- ===== src/Telegram/World.antt =====
-- A journal beside the world that the handlers change.
use lofi_bot.Prelude.{arith}
use lofi_bot.Telegram.Poller.{UpdateJournal, Turn}
use lofi_bot.Telegram.Contract.{View, Follows, FollowsUnconfirmed, IsJournal}

module _ {S : Type 0} (World : Type 0) where
  -- The operations of a journal leave the world as it is.
  abbrev pub beside : UpdateJournal S → UpdateJournal (S × World)
  beside j = record {
    load_checkpoint = λ p. j.load_checkpoint p.0;
    confirm_offset = λ offset now p.
        (((j.confirm_offset offset now p.0).0, p.1), (j.confirm_offset offset now p.0).1);
    begin_attempt =
        λ q now p. (((j.begin_attempt q now p.0).0, p.1), (j.begin_attempt q now p.0).1);
    complete_attempt = λ id next token now p. (
      ((j.complete_attempt id next token now p.0).0, p.1),
      (j.complete_attempt id next token now p.0).1,
    );
    abort_attempt = λ id token now p.
        (((j.abort_attempt id token now p.0).0, p.1), (j.abort_attempt id token now p.0).1);
    fail_attempt = λ id next token most cause hold now p. (
      ((j.fail_attempt id next token most cause hold now p.0).0, p.1),
      (j.fail_attempt id next token most cause hold now p.0).1,
    );
  }

  -- A handler changes the world, and not the journal.
  abbrev pub acting : (Turn → World → World) → Turn → S × World → S × World
  acting act t p = (p.0, act t p.1)

  abbrev pub beside_view : View S → View (S × World)
  beside_view v = record {
    IsSound = λ p. v.IsSound p.0;
    Settled = λ p i. v.Settled p.0 i;
    confirmed = λ p. v.confirmed p.0;
  }

  module _ (v : View S) where
    beside-Follows : (p p' : S × World) → Follows v p.0 p'.0 → Follows (beside_view v) p p'
    beside-Follows p p' h = record { sound = h.sound; stays = h.stays }

    beside-FollowsUnconfirmed :
        (p p' : S × World) → FollowsUnconfirmed v p.0 p'.0 → FollowsUnconfirmed (beside_view v) p p'
    beside-FollowsUnconfirmed p p' h = record {
      follows = beside-Follows p p' h.follows;
      same = h.same;
    }

    -- The laws of a journal hold of it beside any world.
    pub beside-IsJournal :
        (j : UpdateJournal S) (quiet : Turn → S → S) (act : Turn → World → World)
        → IsJournal j quiet v
        → IsJournal (beside j) (acting act) (beside_view v)
    beside-IsJournal j quiet act laws = record {
      load_law = λ p. laws.load_law p.0;
      confirm_law = λ offset now p sound.
          let law = laws.confirm_law offset now p.0 sound in (beside-Follows p _ law.0, law.1);
      begin_law = λ q now p sound. beside-FollowsUnconfirmed p _ (laws.begin_law q now p.0 sound);
      begin_over = λ q now p sound. laws.begin_over q now p.0 sound;
      begin_open = λ q now p sound open_ settled. laws.begin_open q now p.0 sound open_ settled;
      complete_law = λ id next token now p sound.
          let law = laws.complete_law id next token now p.0 sound in
          (beside-FollowsUnconfirmed p _ law.0, law.1);
      abort_law = λ id token now p sound.
          beside-FollowsUnconfirmed p _ (laws.abort_law id token now p.0 sound);
      fail_law = λ id next token most cause hold now p sound.
          let law = laws.fail_law id next token most cause hold now p.0 sound in
          (beside-FollowsUnconfirmed p _ law.0, law.1);
      handler_law = λ t p sound. record {
        follows = record { sound = sound; stays = λ i h. h };
        same = omega arith;
      };
    }
