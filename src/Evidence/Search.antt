-- ===== src/Evidence/Search.antt =====
-- internal/obsevidence/verify.go: findCorrelation and what it calls.
-- A loop over an index is recursion on the records after it, with those before it in reverse.
use lofi_bot.Prelude.{
  ℕ, ◌+◌, ◌-◌, Bool, true, false, not, ◌&&◌, ◌||◌, List, [], ◌∷◌, Option, none, some, ltb, leb,
  ◌==◌, if◌then◌else◌,
}
use lofi_bot.Prelude.Text.{Text, text_eq}
use lofi_bot.Evidence.Records.{
  second, correlation_window, Kind, settings_changed, media_action, settings_snapshot,
  playback_ended, Action, restart, Trigger, on_restart, ended_immediate, ended_settle, Record,
}

abbrev pub is_restart_trigger : Trigger → Bool
is_restart_trigger on_restart = true
is_restart_trigger _ = false

abbrev pub is_restart : Action → Bool
is_restart restart = true
is_restart _ = false

abbrev pub is_snapshot : Kind → Bool
is_snapshot settings_snapshot = true
is_snapshot _ = false

abbrev pub is_media_action : Kind → Bool
is_media_action media_action = true
is_media_action _ = false

abbrev pub is_ended : Kind → Bool
is_ended playback_ended = true
is_ended _ = false

abbrev pub succeeded : Option Bool → Bool
succeeded (some true) = true
succeeded _ = false

abbrev pub is_restart_snapshot : Record → Bool
is_restart_snapshot r = (is_snapshot r.kind && is_restart_trigger r.trigger) && succeeded r.result

-- The map of the restarts' snapshots, where a later one replaces an earlier one.
abbrev pub Snapshots : Type 0
Snapshots = ℕ → Option Record

unfoldable pub restart_snapshots : List Record → Snapshots → Snapshots
restart_snapshots [] m = m
restart_snapshots (r ∷ rs) m =
    restart_snapshots rs
      (λ seq. if is_restart_snapshot r && r.related_seq == seq then some r else m seq)

abbrev pub confirms : Record → Text → Option Record → Bool
confirms r basename none = false
confirms r basename (some snapshot) = ltb r.seq snapshot.seq && text_eq snapshot.basename basename

unfoldable pub confirmed_restart : Record → Text → Snapshots → Bool
confirmed_restart r basename snapshots =
    ((is_media_action r.kind && is_restart r.action) && text_eq r.basename basename)
    && confirms r basename (snapshots r.seq)

-- The sequence number in the map, 0 where there is none.
abbrev pub snapshot_seq : Option Record → ℕ
snapshot_seq none = 0
snapshot_seq (some r) = r.seq

-- The nearest record before that restarts A, with the records between.
unfoldable pub preceding_confirmed_a_restart :
    List Record → Text → Snapshots → ℕ → List Record → Option (Record × List Record)
unfolding confirmed_restart
preceding_confirmed_a_restart [] a snapshots before_seq between = none
preceding_confirmed_a_restart (r ∷ before) a snapshots before_seq between =
    let rest = preceding_confirmed_a_restart before a snapshots before_seq (r ∷ between) in
    if confirmed_restart r a snapshots && ltb (snapshot_seq (snapshots r.seq)) before_seq
    then some (r, between)
    else rest

-- The changes of the settings to B, or none where the transition is not clean.
unfoldable pub clean_changes : List Record → Record → Text → Text → ℕ → Option ℕ
clean_changes [] a_restart a b changes = some changes
clean_changes (r ∷ rs) a_restart a b changes =
    let changed = clean_changes rs a_restart a b (changes + 1) in
    let rest = clean_changes rs a_restart a b changes in
    elim r.kind [
      | settings_changed ↦
          if not (text_eq r.basename b) then none else if ltb 1 (changes + 1) then none else changed
      | media_action ↦ none
      | settings_snapshot ↦
          if is_restart_trigger r.trigger
            && (not (r.related_seq == a_restart.seq) || not (text_eq r.basename a))
          then none
          else rest
      | _ ↦ rest
    ]

abbrev pub is_one : Option ℕ → Bool
is_one none = false
is_one (some n) = n == 1

unfoldable pub clean_a_to_b_transition : List Record → Record → Text → Text → Bool
unfolding clean_changes
clean_a_to_b_transition between a_restart a b = is_one (clean_changes between a_restart a b 0)

-- A snapshot that belongs to the end of the playback and shows B.
abbrev pub shows_b : Record → Record → Text → Bool
shows_b r ended b =
    (is_snapshot r.kind && r.related_seq == ended.seq)
    && (succeeded r.result && text_eq r.basename b)

abbrev pub is_immediate : Record → Record → Bool
is_immediate r ended =
    leb ended.elapsed_ns r.request_sent_elapsed_ns
    && ltb (r.request_sent_elapsed_ns - ended.elapsed_ns) second

-- A request before the end is as far from it as one at the end: neither is late enough.
abbrev pub is_settle : Record → Record → Bool
is_settle r ended =
    leb correlation_window (r.request_sent_elapsed_ns - ended.elapsed_ns)
    && ltb (r.request_sent_elapsed_ns - ended.elapsed_ns) (correlation_window + second)

abbrev pub has_trigger_immediate : Trigger → Bool
has_trigger_immediate ended_immediate = true
has_trigger_immediate _ = false

abbrev pub has_trigger_settle : Trigger → Bool
has_trigger_settle ended_settle = true
has_trigger_settle _ = false

-- The first record that passes a test.
unfoldable pub first_record : (Record → Bool) → List Record → Option Record
first_record p [] = none
first_record p (r ∷ rs) = let rest = first_record p rs in if p r then some r else rest

abbrev pub immediate_for : Record → Text → Record → Bool
immediate_for ended b r =
    shows_b r ended b && (has_trigger_immediate r.trigger && is_immediate r ended)

abbrev pub settled_for : Record → Text → Record → Bool
settled_for ended b r = shows_b r ended b && (has_trigger_settle r.trigger && is_settle r ended)

abbrev pub in_order : Option Record → Option Record → Option (Record × Record)
in_order (some immediate) (some settled) =
    if ltb immediate.seq settled.seq
      && leb immediate.response_elapsed_ns settled.request_sent_elapsed_ns
    then some (immediate, settled)
    else none
in_order _ _ = none

-- The first of each, since a sequence number is never 0; the two triggers exclude each other.
unfoldable pub ended_snapshots : List Record → Record → Text → Option (Record × Record)
unfolding first_record
ended_snapshots rs ended b =
    in_order (first_record (immediate_for ended b) rs) (first_record (settled_for ended b) rs)

-- What a record says of a switch away from B.
abbrev pub switches : ℕ → Text → ℕ → Record → Bool
switches from_ns b allowed_ended_seq r = elim r.kind [
  | settings_changed ↦ not (text_eq r.basename b)
  | media_action ↦ true
  | playback_ended ↦ not (r.seq == allowed_ended_seq)
  | settings_snapshot ↦
      leb from_ns r.request_sent_elapsed_ns && (succeeded r.result && not (text_eq r.basename b))
  | _ ↦ false
]

unfoldable pub switched_away : List Record → ℕ → ℕ → Text → ℕ → Bool
switched_away [] from_ns through_ns b allowed_ended_seq = false
switched_away (r ∷ rs) from_ns through_ns b allowed_ended_seq =
    let rest = switched_away rs from_ns through_ns b allowed_ended_seq in
    if ltb through_ns r.elapsed_ns
    then false
    else if switches from_ns b allowed_ended_seq r
    then true
    else rest

pub record Verdict : Type 0 where
  pub a_restart_seq : ℕ
  pub b_restart_seq : ℕ
  pub ended_seq : ℕ
  pub immediate_seq : ℕ
  pub settled_seq : ℕ
  pub delta_ns : ℕ

abbrev pub since_is : ℕ → Option ℕ → Bool
since_is delta none = false
since_is delta (some since) = since == delta

-- The end of the playback that B's restart began, within the window.
abbrev pub ends_b : Record → Text → Record → Bool
ends_b b_restart b ended =
    ((is_ended ended.kind && ended.last_restart_seq == b_restart.seq) && text_eq ended.basename b)
    && ((leb b_restart.elapsed_ns ended.elapsed_ns
          && ltb (ended.elapsed_ns - b_restart.elapsed_ns) correlation_window)
        && since_is (ended.elapsed_ns - b_restart.elapsed_ns) ended.since_restart_ns)

abbrev pub snapshot_between : Record → Record → Option Record → Bool
snapshot_between b_restart ended none = false
snapshot_between b_restart ended (some snapshot) =
    (ltb b_restart.seq snapshot.seq && ltb snapshot.seq ended.seq)
    && leb snapshot.response_elapsed_ns ended.elapsed_ns

abbrev pub verdict_of : Record → Record → Record → Record × Record → Verdict
verdict_of a_restart b_restart ended (immediate, settled) = record {
  a_restart_seq = a_restart.seq;
  b_restart_seq = b_restart.seq;
  ended_seq = ended.seq;
  immediate_seq = immediate.seq;
  settled_seq = settled.seq;
  delta_ns = ended.elapsed_ns - b_restart.elapsed_ns;
}

-- The two snapshots, unless the source was switched away from B before the second.
abbrev pub unless_switched :
    List Record → Record → Text → Record → Option (Record × Record) → Option (Record × Record)
unless_switched after b_restart b ended none = none
unless_switched after b_restart b ended (some (immediate, settled)) =
    if switched_away after b_restart.elapsed_ns settled.response_elapsed_ns b ended.seq
    then none
    else some (immediate, settled)

-- The body of the loop over the ends of the playback.
unfoldable pub correlates :
    List Record → Snapshots → Record → Text → Record → List Record → Option (Record × Record)
unfolding ended_snapshots switched_away
correlates after snapshots b_restart b ended rest =
    let found = unless_switched after b_restart b ended (ended_snapshots rest ended b) in
    if ends_b b_restart b ended && snapshot_between b_restart ended (snapshots b_restart.seq)
    then found
    else none

abbrev pub or_else : Option Verdict → Option Verdict → Option Verdict
or_else (some v) later = some v
or_else none later = later

abbrev pub verdict_if : Record → Record → Record → Option (Record × Record) → Option Verdict
verdict_if a_restart b_restart ended none = none
verdict_if a_restart b_restart ended (some pair) = some (verdict_of a_restart b_restart ended pair)

-- The loop over the records after B's restart.
unfoldable pub find_end :
    List Record → Snapshots → Record → Record → Text → List Record → Option Verdict
unfolding correlates
find_end after snapshots a_restart b_restart b [] = none
find_end after snapshots a_restart b_restart b (ended ∷ rest) =
    or_else
      (verdict_if a_restart b_restart ended (correlates after snapshots b_restart b ended rest))
      (find_end after snapshots a_restart b_restart b rest)

abbrev pub from_a :
    List Record → Snapshots → Record → Text → Text → Option (Record × List Record) → Option Verdict
from_a after snapshots b_restart a b none = none
from_a after snapshots b_restart a b (some (a_restart, between)) =
    let found = find_end after snapshots a_restart b_restart b after in
    if clean_a_to_b_transition between a_restart a b then found else none

-- The body of the loop over B's restarts.
unfoldable pub from_b :
    List Record → List Record → Snapshots → Record → Text → Text → Option Verdict
unfolding confirmed_restart preceding_confirmed_a_restart clean_a_to_b_transition find_end
from_b before after snapshots b_restart a b =
    let found =
      from_a after snapshots b_restart a b
        (preceding_confirmed_a_restart before a snapshots b_restart.seq []) in
    if confirmed_restart b_restart b snapshots then found else none

unfoldable pub find_from : List Record → List Record → Snapshots → Text → Text → Option Verdict
unfolding from_b
find_from before [] snapshots a b = none
find_from before (r ∷ after) snapshots a b =
    or_else (from_b before after snapshots r a b) (find_from (r ∷ before) after snapshots a b)

unfoldable pub find_correlation : List Record → Text → Text → Option Verdict
unfolding find_from restart_snapshots
find_correlation records a b = find_from [] records (restart_snapshots records (λ seq. none)) a b
