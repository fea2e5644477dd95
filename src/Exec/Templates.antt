-- ===== src/Exec/Templates.antt =====
-- suite/exec.c: the templates of messages. `ph_ok` checks a template when a scenario is read, and
-- `tpl_expand` fills it in for each message. Both scan the text for {{name}}.
pub mod Filled
use resonance.Prelude.{
  codes, ℕ, zero, suc, ◌+◌, Bool, true, false, ◌&&◌, ◌||◌, Option, none, some, List, [], ◌∷◌, ◌++◌,
  if◌then◌else◌, ltb, leb, ◌==◌, length,
}
use resonance.Prelude.Int.{pos}
use resonance.Suite.{Bytes, same_bytes}
use resonance.Suite.Tree.Numbers.{print_int}

abbrev pub starts : ℕ → Bytes → Bool
starts c [] = false
starts c (b ∷ s) = b == c

-- The bytes before }}, at most `room` of them, and the text from there on.
unfoldable pub scan : (room : ℕ) → Bytes → Bytes × Bytes
scan zero s = ([], s)
scan (suc room) [] = ([], [])
scan (suc room) (c ∷ s) =
    let rest = scan room s in
    if c == b'}' && starts b'}' s then ([], c ∷ s) else (c ∷ rest.0, rest.1)

-- A name and the text behind its }}, where the second brace is the one that is tested.
abbrev pub closed : Bytes × Bytes → Option (Bytes × Bytes)
closed (name, []) = none
closed (name, c ∷ []) = none
closed (name, c ∷ d ∷ rest) = if d == b'}' then some (name, rest) else none

-- `nm` holds 31 bytes and a NUL.
abbrev pub placeholder : Bytes → Option (Bytes × Bytes)
placeholder s = closed (scan 31 s)

-- The text behind its first byte.
abbrev pub behind : Bytes → Bytes
behind [] = []
behind (c ∷ s) = s

pub data Checked : Type 0 where
  fine : Checked
  bad_shape : Checked
  wid_refused : Checked
  unknown : Bytes → Checked
  no_fuel : Checked

abbrev pub known : Bytes → Bool
known name =
    same_bytes name (codes "seq")
    || (same_bytes name (codes "send_ns") || same_bytes name (codes "body"))

abbrev pub check_name : (allow_wid : Bool) → Bytes → Checked → Checked
check_name allow_wid name rest =
    if known name
    then rest
    else if same_bytes name (codes "wid")
    then (if allow_wid then rest else wid_refused)
    else unknown name

-- The text at a {{: what follows it is `rest` of the text behind the }}.
abbrev pub check_hole : (allow_wid : Bool) → Option (Bytes × Bytes) → (Bytes → Checked) → Checked
check_hole allow_wid none next = bad_shape
check_hole allow_wid (some (name, rest)) next = check_name allow_wid name (next rest)

-- `fuel` is for the length of the text.
unfoldable pub ph_ok : (allow_wid : Bool) (fuel : ℕ) → Bytes → Checked
ph_ok allow_wid fuel [] = fine
ph_ok allow_wid zero (c ∷ s) = no_fuel
ph_ok allow_wid (suc fuel) (c ∷ s) =
    let plain = ph_ok allow_wid fuel s in
    let hole = check_hole allow_wid (placeholder (behind s)) (ph_ok allow_wid fuel) in
    if c == b'{' && starts b'{' s then hole else plain

-- What a message fills in.
pub record Values : Type 0 where
  pub seq : ℕ
  pub send_ns : ℕ
  pub body : Bytes
  pub wid : Bytes

abbrev pub value_of : Values → Bytes → Option Bytes
value_of v name =
    if same_bytes name (codes "seq")
    then some (print_int (pos v.seq))
    else if same_bytes name (codes "send_ns")
    then some (print_int (pos v.send_ns))
    else if same_bytes name (codes "body")
    then some v.body
    else if same_bytes name (codes "wid")
    then some v.wid
    else none

abbrev pub onto : Bytes → Option Bytes → Option Bytes
onto s none = none
onto s (some t) = some (s ++ t)

-- The value of a name goes to offset `o` of `n` bytes.
abbrev pub put_value : (o n : ℕ) → Option Bytes → (ℕ → Option Bytes) → Option Bytes
put_value o n none next = none
put_value o n (some rep) next =
    if ltb n (o + length rep + 1) then none else onto rep (next (o + length rep))

abbrev pub fill_hole :
    Values → (o n : ℕ) → Option (Bytes × Bytes) → (ℕ → Bytes → Option Bytes) → Option Bytes
fill_hole v o n none next = none
fill_hole v o n (some (name, rest)) next = put_value o n (value_of v name) (λ at. next at rest)

-- What is written from offset `o` on to a buffer of `n` bytes, without the NUL.
unfoldable pub tpl_expand : Values → (n fuel o : ℕ) → Bytes → Option Bytes
tpl_expand v n fuel o [] = if ltb n (o + 1) then none else some []
tpl_expand v n zero o (c ∷ s) = none
tpl_expand v n (suc fuel) o (c ∷ s) =
    let plain = tpl_expand v n fuel (o + 1) s in
    let hole = fill_hole v o n (placeholder (behind s)) (tpl_expand v n fuel) in
    if c == b'{' && starts b'{' s then hole else if leb n (o + 1) then none else onto (c ∷ []) plain
