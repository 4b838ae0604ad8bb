-- ===== src/Mem/State.antt =====
-- The state of totw_p5/mymem.c and `initmem`. The doubly linked list is the list of its nodes in
-- order: `prev` and `next` of a node are its neighbours, and `head` is the first one. A node is
-- named by the address (`node`) that `malloc` gave it; NULL is 0.
use Prim.Native.String.{String}
use text.Mathlib.Text.{◌==◌ as str_eq}
use team_otw_os_labs.Base.{ℕ, List, [], ◌∷◌, Bool, false, if◌then◌else◌, to_int}

abbrev pub null : ℕ
null = 0

-- `strategies`
pub data Strategy : Type 0 where
  not_set best worst first next_fit : Strategy

-- `struct memoryList`
pub record Block : Type 0 where
  pub node : ℕ
  pub size : ℕ
  pub alloc : Bool
  pub ptr : ℕ

-- The global variables: `blocks` is the list from `head`, and `next` a node's address.
pub record Mem : Type 0 where
  pub my_strategy : Strategy
  pub my_size : ℕ
  pub my_memory : ℕ
  pub blocks : List Block
  pub next : ℕ

-- The loop that frees the nodes, and the reset of both pointers.
unfoldable pub release : Mem → Mem
release m = record m { blocks = []; next = null }

-- `node` is what `malloc` returns for the first node.
unfoldable pub initialize : (node : ℕ) → Mem → Mem
initialize node m = record m {
  blocks = record { node = node; size = to_int m.my_size; alloc = false; ptr = m.my_memory } ∷ [];
  next = node;
}

-- `pool` and `node` are what the two calls of `malloc` return.
unfoldable pub initmem : (pool node : ℕ) → Strategy → ℕ → Mem → Mem
unfolding release initialize
initmem pool node strategy sz m =
    let m1 = record m { my_strategy = strategy; my_size = sz } in
    let m2 = record (release m1) { my_memory = pool } in initialize node m2

-- The static variables before the first `initmem`.
abbrev pub start : Mem
start = record { my_strategy = not_set; my_size = 0; my_memory = null; blocks = []; next = null }

unfoldable pub mem_pool : Mem → ℕ
mem_pool m = m.my_memory

unfoldable pub mem_total : Mem → ℕ
mem_total m = to_int m.my_size

unfoldable pub strategy_name : Strategy → String
strategy_name best = "best"
strategy_name worst = "worst"
strategy_name first = "first"
strategy_name next_fit = "next"
strategy_name not_set = "unknown"

unfoldable pub strategy_from_string : String → Strategy
strategy_from_string strategy =
    if str_eq strategy "best"
    then best
    else if str_eq strategy "worst"
    then worst
    else if str_eq strategy "first"
    then first
    else if str_eq strategy "next"
    then next_fit
    else not_set
