-- ===== src/Nemesis/Text.antt =====
-- suite/nemesis.c: the text of a plan, which `emit_head` and the other emitters print.
use resonance.Prelude.{
  codes, ℕ, zero, suc, ◌+◌, ◌-◌, ◌*◌, ◌/◌, ◌%◌, ◌^◌, Bool, ◌||◌, Option, none, some, List, [], ◌∷◌,
  ◌++◌, if◌then◌else◌, ltb,
}
use resonance.Prelude.Int.{pos, pos_part}
use resonance.Suite.{Bytes}
use resonance.Suite.Tree.Numbers.{print_int}
use resonance.Nemesis.Plan.{
  NemProfile, Pub, Phase, mesh, dwell, drop, heal, kill, submit, submit_stop, stop, pub_only,
  pub_drop, pub_heal, pub_kill, sut_copy, is_concord, nemesis_gen,
}

-- `%d`, for a number that is not negative.
abbrev decimal : ℕ → Bytes
decimal n = print_int (pos n)

abbrev hex_digit : ℕ → ℕ
hex_digit d = if ltb d 10 then b'0' + d else b'a' + (d - 10)

-- `%08llx` and `%04llx`, of a number of at most as many digits.
abbrev hex_digits : (count : ℕ) → ℕ → Bytes → Bytes
hex_digits zero n rest = rest
hex_digits (suc count) n rest = hex_digits count (n / 16) (hex_digit (n % 16) ∷ rest)

-- `p%02d`.
abbrev phase_nm : ℕ → Bytes
phase_nm i = b'p' ∷ (if ltb i 10 then b'0' ∷ decimal i else decimal i)

-- A line that ends in a number.
abbrev number_line : Bytes → ℕ → Bytes
number_line label n = label ++ decimal n ++ b'\n' ∷ []

abbrev name_line : Bytes → Bytes
name_line name = codes "  - name: " ++ name ++ b'\n' ∷ []

abbrev limit_line : ℕ → Bytes
limit_line limit = number_line (codes "    timeout_s: ") limit

-- The condition that all nodes see one another.
abbrev peers_lines : ℕ → Bytes
peers_lines nodes =
    codes "    until:\n" ++ number_line (codes "      peers: ") nodes ++ codes "      on: all\n"

abbrev mesh_lines : ℕ → Bytes
mesh_lines nodes = codes "    until:\n" ++ number_line (codes "      mesh_count: ") nodes

abbrev all_there : (concord : Bool) → ℕ → Bytes
all_there concord nodes = if concord then peers_lines nodes else mesh_lines nodes

abbrev node_step : Bytes → ℕ → Bytes
node_step verb node =
    codes "      - " ++ verb ++ codes ":\n" ++ number_line (codes "          - ") node

abbrev node_line : ℕ → Bytes
node_line node = number_line (codes "          node: ") node

abbrev kill_lines : (node : ℕ) → Bytes → Bytes
kill_lines node signal =
    codes "      - kill:\n"
    ++ node_line node
    ++ codes "          signal: "
    ++ signal
    ++ codes "\n      - restart:\n"
    ++ node_line node
    ++ codes "          durability: fresh\n"

abbrev text_of : Pub → Bytes
text_of msg = codes "wmsg" ++ hex_digits 4 msg.text (b'\n' ∷ [])

-- The step that sends a message, and the condition that it is seen.
abbrev pub_lines : Pub → Bytes
pub_lines msg =
    codes "      - pub:\n"
    ++ number_line (codes "          from: ") msg.from
    ++ codes "          text: "
    ++ text_of msg
    ++ codes "    until:\n      observed:\n"
    ++ number_line (codes "        on: ") msg.on
    ++ codes "        text: "
    ++ text_of msg
    ++ limit_line msg.limit

abbrev do_line : Bytes
do_line = codes "    do:\n"

-- What follows the line of a phase's name.
abbrev phase_lines : (concord : Bool) (nodes : ℕ) → Phase → Bytes
phase_lines concord nodes mesh = all_there concord nodes ++ limit_line 30
phase_lines concord nodes (dwell limit) = all_there concord nodes ++ limit_line limit
phase_lines concord nodes (drop node limit) =
    do_line ++ node_step (codes "drop") node ++ mesh_lines nodes ++ limit_line limit
phase_lines concord nodes (heal node limit) =
    do_line ++ node_step (codes "heal") node ++ mesh_lines nodes ++ limit_line limit
phase_lines concord nodes (kill node limit term) =
    do_line
    ++ kill_lines node (if term then codes "TERM" else codes "KILL")
    ++ mesh_lines nodes
    ++ limit_line limit
phase_lines concord nodes (submit node limit) =
    do_line
    ++ codes "      - submit:\n"
    ++ node_line node
    ++ codes "          image: probe\n    until:\n      assigned:\n        workload: submitted\n"
    ++ limit_line limit
phase_lines concord nodes (submit_stop limit) =
    do_line
    ++ codes "      - submit:\n          node: 0\n          image: probe\n"
    ++ codes "      - stop:\n          workload: submitted\n"
    ++ codes "    until:\n      mesh_count: 1\n"
    ++ limit_line limit
phase_lines concord nodes (stop limit) =
    do_line
    ++ codes "      - stop:\n          workload: submitted\n"
    ++ codes "    until:\n      absent:\n        workload: submitted\n        on: all\n"
    ++ limit_line limit
phase_lines concord nodes (pub_only msg) = do_line ++ pub_lines msg
phase_lines concord nodes (pub_drop node msg) =
    do_line ++ node_step (codes "drop") node ++ pub_lines msg
phase_lines concord nodes (pub_heal node msg) =
    do_line ++ node_step (codes "heal") node ++ pub_lines msg
phase_lines concord nodes (pub_kill node msg) =
    do_line ++ kill_lines node (codes "KILL") ++ pub_lines msg

abbrev phase_name : ℕ → Phase → Bytes
phase_name i mesh = codes "mesh"
phase_name i _ = phase_nm i

-- The phases from phase `i` on.
abbrev all_phases : (concord : Bool) (nodes i : ℕ) → List Phase → Bytes
all_phases concord nodes i [] = []
all_phases concord nodes i (ph ∷ phs) =
    name_line (phase_name i ph)
    ++ phase_lines concord nodes ph
    ++ all_phases concord nodes (i + 1) phs

-- `emit_head`, which refuses a limit out of 1 up to 3600.
abbrev head_lines : (concord : Bool) → NemProfile → Option Bytes
head_lines concord p =
    let limit = pos_part p.nphases * 60 in
    if ltb limit 1 || ltb 3600 limit
    then none
    else some (
        (if concord then codes "name: nemesis-c-" else codes "name: nemesis-w-")
        ++ hex_digits 8 (p.seed % 2 ^ 32) (b'\n' ∷ [])
        ++ codes "version: 1\nsut: "
        ++ (if concord then codes "concord\n" else codes "weld\n")
        ++ number_line (codes "nodes: ") (pos_part p.nodes)
        ++ (if concord then [] else codes "domain: 64\n")
        ++ number_line (codes "timeout_s: ") limit
        ++ codes "phases:\n")

abbrev joined : Option Bytes → Bytes → Option Bytes
joined none rest = none
joined (some head) rest = some (head ++ rest)

abbrev printed : (concord : Bool) → NemProfile → Option (List Phase) → Option Bytes
printed concord p none = none
printed concord p (some phs) =
    joined (head_lines concord p) (all_phases concord (pos_part p.nodes) 0 phs)

-- The file that `nemesis_gen` writes.
unfoldable pub nemesis_text : NemProfile → Option Bytes
nemesis_text p = printed (is_concord (sut_copy p.sut)) p (nemesis_gen p)
