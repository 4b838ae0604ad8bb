-- ===== src/Buffer/Tests.antt =====
-- The buffer's theorems at concrete buffers.
use team_otw_os_labs.Base.{ℕ, ◌≡◌, refl, List, [], ◌∷◌, arith, ok, load, store}
use team_otw_os_labs.Buffer.{Buffer, add_to, pop}
use team_otw_os_labs.Buffer.Holds.{Holds, added, laid, add_to-Holds, pop-Holds}

abbrev three : List ℕ
three = 7 ∷ 8 ∷ 9 ∷ []

abbrev ten : List ℕ
ten = 1 ∷ 2 ∷ 3 ∷ 4 ∷ 5 ∷ 6 ∷ 7 ∷ 8 ∷ 9 ∷ 10 ∷ []

abbrev holding : ℕ → List ℕ → Buffer
holding stack xs = record { stack = stack; slots = laid xs }

three-Holds : (stack : ℕ) → Holds (holding stack three) three
three-Holds stack = record { slots_are = refl; values = omega arith; fits = omega arith }

ten-Holds : Holds (holding 0 ten) ten
ten-Holds = record { slots_are = refl; values = omega arith; fits = omega arith }

stack_run : add_to (holding 1 three) 4 ≡ ok (holding 1 (4 ∷ three))
unfolding add_to load store
stack_run = refl

queue_run : add_to (holding 0 three) 4 ≡ ok (holding 0 (7 ∷ 8 ∷ 9 ∷ 4 ∷ []))
unfolding add_to load store
queue_run = refl

add_to-Holds_example :
    (b : Buffer) × (add_to (holding 1 three) 4 ≡ ok b) × Holds b (added 1 4 three) × (b.stack ≡ 1)
add_to-Holds_example =
    add_to-Holds (holding 1 three) three 4 (three-Holds 1) (omega arith) (omega arith)

pop-Holds_example :
    (b : Buffer) × (pop (holding 0 three) ≡ ok (7, b)) × Holds b (8 ∷ 9 ∷ []) × (b.stack ≡ 0)
pop-Holds_example = pop-Holds (holding 0 three) 7 (8 ∷ 9 ∷ []) (three-Holds 0)
