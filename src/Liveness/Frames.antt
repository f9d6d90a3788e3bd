-- ===== src/Liveness/Frames.antt =====
-- internal/liveness/reporter.go: EncodeFrame, the line that the supervisor reads.
use lofi_bot.Prelude.{
  ℕ, zero, suc, ◌+◌, ◌*◌, ◌/◌, ◌%◌, ◌≤◌, ◌<◌, ◌≡◌, refl, arith, true, false, not, ◌||◌, List, [],
  ◌∷◌, ◌++◌, Option, none, some, ltb, leb, ◌==◌, if◌then◌else◌, length, length-append,
}
use lofi_bot.Prelude.Text.{Text, codes}
use lofi_bot.Liveness.Worker.{Snapshot}
use lofi_bot.Liveness.Registry.{required_worker_ids, valid_binding}

abbrev pub max_frame_bytes : ℕ
max_frame_bytes = 192

-- The most digits of a 64-bit number.
abbrev pub max_digits : ℕ
max_digits = 20

-- The decimal digits before others, the digits that may be written as fuel.
unfoldable pub append_digits : ℕ → ℕ → Text → Text
append_digits zero n acc = acc
append_digits (suc fuel) n acc =
    let rest = append_digits fuel (n / 10) ((b'0' + n % 10) ∷ acc) in
    if ltb n 10 then (b'0' + n) ∷ acc else rest

-- strconv.AppendUint, in base 10.
unfoldable pub append_uint : ℕ → Text
unfolding append_digits
append_uint n = append_digits max_digits n []

-- The phases are numbered from 0 in their order, up to 10 for the scan of the library.
unfoldable pub phase_wire_code : ℕ → Option (ℕ × ℕ)
phase_wire_code phase = if leb phase 10 then some (b'0' + phase / 10, b'0' + phase % 10) else none

pub data Frame : Type 0 where
  encoded : Text → Frame
  invalid_frame frame_too_large : Frame

abbrev pub frame_keys : Text
frame_keys = codes "tremp"

abbrev pub worker_text : ℕ → Snapshot → ℕ × ℕ → Text
worker_text key s (tens, ones) =
    b' ' ∷ key ∷ b'=' ∷ (append_uint s.sequence ++ (b',' ∷ tens ∷ ones ∷ []))

abbrev pub join : Option Text → Option Text → Option Text
join (some s) (some t) = some (s ++ t)
join _ _ = none

abbrev pub coded : ℕ → Snapshot → Option (ℕ × ℕ) → Option Text
coded key s none = none
coded key s (some code) = some (worker_text key s code)

unfoldable pub encode_worker : ℕ → ℕ → Snapshot → Option Text
unfolding append_uint phase_wire_code valid_binding
encode_worker id key s =
    let text = coded key s (phase_wire_code s.phase) in
    if not (s.id == id) || not (valid_binding s.id s.owner) then none else text

-- The workers in their order, each with its key.
unfoldable pub encode_workers : List ℕ → Text → List Snapshot → Option Text
unfolding encode_worker
encode_workers [] keys [] = some []
encode_workers (id ∷ ids) (key ∷ keys) (s ∷ ss) =
    join (encode_worker id key s) (encode_workers ids keys ss)
encode_workers _ _ _ = none

abbrev pub finish_frame : ℕ → Option Text → Frame
finish_frame frame none = invalid_frame
finish_frame frame (some workers) =
    let bytes = codes "TGOBS1 " ++ (append_uint frame ++ (workers ++ (10 ∷ []))) in
    if ltb max_frame_bytes (length bytes) then frame_too_large else encoded bytes

unfoldable pub encode_frame : ℕ → List Snapshot → Frame
unfolding encode_workers append_uint
encode_frame frame snapshots =
    let result = finish_frame frame (encode_workers required_worker_ids frame_keys snapshots) in
    if frame == 0 then invalid_frame else result

length-append_digits :
    (fuel n : ℕ) (acc : Text) → length (append_digits fuel n acc) ≤ fuel + length acc
unfolding append_digits
length-append_digits zero n acc = omega arith
length-append_digits (suc fuel) n acc =
    ground (arith, length-append_digits fuel (n / 10) ((b'0' + n % 10) ∷ acc))

-- A snapshot that a frame can show.
abbrev pub IsReady : ℕ → Snapshot → Type 0
IsReady id s = (s.id ≡ id) × (valid_binding s.id s.owner ≡ true) × (s.phase ≤ 10)

abbrev pub AllReady : List ℕ → Text → List Snapshot → Type 0
AllReady [] keys [] = Unit {0}
AllReady (id ∷ ids) (key ∷ keys) (s ∷ ss) = IsReady id s × AllReady ids keys ss
AllReady _ _ _ = ⊥

worker_ready :
    (id key : ℕ) (s : Snapshot) (here : IsReady id s) (t : Text) (rest : Option Text)
    → rest ≡ some t
    → join (encode_worker id key s) rest
      ≡ some (worker_text key s (b'0' + s.phase / 10, b'0' + s.phase % 10) ++ t)
unfolding encode_worker phase_wire_code
worker_ready id key s (same, bound, le) t rest e =
    let test : (s.id == id) ≡ true = ground (arith, same) in
    let phase : leb s.phase 10 ≡ true = ground (arith, le) in rw (e, test, bound, phase) refl

encode_workers_lem :
    (ids : List ℕ) (keys : Text) (snapshots : List Snapshot)
    → AllReady ids keys snapshots
    → (t : Text) × (encode_workers ids keys snapshots ≡ some t)
      × (length t ≤ length ids * (max_digits + 6))
unfolding encode_workers encode_worker phase_wire_code append_uint
encode_workers_lem [] keys [] h = ([], refl, omega arith)
encode_workers_lem (id ∷ ids) (key ∷ keys) (s ∷ ss) (here, h) =
    let (t, e, short) = encode_workers_lem ids keys ss h in
    let code : ℕ × ℕ = (b'0' + s.phase / 10, b'0' + s.phase % 10) in
    (
      worker_text key s code ++ t,
      worker_ready id key s here t (encode_workers ids keys ss) e,
      omega (
        arith,
        short,
        length-append (worker_text key s code) t,
        length-append (append_uint s.sequence) (b',' ∷ code.0 ∷ code.1 ∷ []),
        length-append_digits max_digits s.sequence [],
      ),
    )
encode_workers_lem [] keys (s ∷ ss) h = elim h [ ]
encode_workers_lem (id ∷ ids) [] snapshots h = elim h [ ]
encode_workers_lem (id ∷ ids) (key ∷ keys) [] h = elim h [ ]

within : (m n : ℕ) → n ≤ m → ltb m n ≡ false
within m n h = ground (arith, h)

not_zero : (n : ℕ) → 0 < n → (n == 0) ≡ false
not_zero n h = ground (arith, h)

-- A frame of a positive number is encoded, and takes at most 192 bytes, for five snapshots that
-- stand under the required workers in their order, each with its owner and with a phase up to that
-- of the library's scan: the error of a frame that is too large cannot occur.
pub encode_frame_lem :
    (frame : ℕ) (snapshots : List Snapshot)
    → 0 < frame
    → AllReady required_worker_ids frame_keys snapshots
    → (bytes : Text) × (encode_frame frame snapshots ≡ encoded bytes)
      × (length bytes ≤ max_frame_bytes)
unfolding encode_frame
encode_frame_lem frame snapshots h ready =
    let (t, e, short) = encode_workers_lem required_worker_ids frame_keys snapshots ready in
    let bytes = codes "TGOBS1 " ++ (append_uint frame ++ (t ++ (10 ∷ []))) in
    let size : length bytes ≤ max_frame_bytes = omega (
      arith,
      short,
      length-append (append_uint frame) (t ++ (10 ∷ [])),
      length-append t (10 ∷ []),
      length-append_digits max_digits frame [],
    ) in
    let small : ltb max_frame_bytes (length bytes) ≡ false =
      within max_frame_bytes (length bytes) size in
    let positive : (frame == 0) ≡ false = not_zero frame h in
    (bytes, rw (positive, e, small) refl, size)
