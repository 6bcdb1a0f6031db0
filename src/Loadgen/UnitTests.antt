-- ===== src/Loadgen/UnitTests.antt =====
-- The unit tests of crates/loadgen/src/trace.rs, on the conversations of
-- crates/loadgen/tests/fixtures/sharegpt_small.json.
use dynamo_router.Base.{
  ◌≡◌, refl, Bool, true, false, ◌&&◌, ◌||◌, Option, some, List, [], ◌∷◌, ◌==◌, length, get_elem?,
  ◌>>=◌,
}
use dynamo_router.Text
use dynamo_router.Text.{Text, codes}
use dynamo_router.Loadgen
use dynamo_router.Loadgen.{RawTurn, RawConversation, load_sharegpt}

program : Unit {0}
unfolding Text.text_eq Loadgen.line Loadgen.turn_loop Loadgen.push_conversation Loadgen.load_loop
    Loadgen.load_sharegpt
program = tt

abbrev turn : Text → Text → RawTurn
turn from value = record { from = from; value = value }

abbrev fixture : List RawConversation
fixture =
    record {
      id = codes "conv1";
      conversations =
          turn (codes "human") (codes "What is Rust?")
          ∷ turn (codes "gpt") (codes "A systems programming language.")
          ∷ turn (codes "human") (codes "Why is it fast?")
          ∷ turn (codes "gpt") (codes "No GC, zero-cost abstractions.")
          ∷ [];
    }
    ∷ record {
      id = codes "conv2";
      conversations =
          turn (codes "human") (codes "Hello") ∷ turn (codes "gpt") (codes "Hi there") ∷ [];
    }
    ∷ []

-- `str::starts_with` and `str::contains`
abbrev starts_with : Text → Text → Bool
starts_with xs [] = true
starts_with [] (y ∷ ys) = false
starts_with (x ∷ xs) (y ∷ ys) = x == y && starts_with xs ys

abbrev contains : Text → Text → Bool
contains [] part = starts_with [] part
contains (x ∷ xs) part = starts_with (x ∷ xs) part || contains xs part

abbrev parses_and_builds_growing_prompts : Option Bool
parses_and_builds_growing_prompts = do
  let convs = load_sharegpt fixture 10
  c ← get_elem? convs 0
  first ← get_elem? c.turns 0
  second ← get_elem? c.turns 1
  some (
      length convs == 2
      && length c.turns == 2
      && contains first (codes "What is Rust?")
      && starts_with second first
      && contains second (codes "Why is it fast?"))

abbrev cap_limits_conversations : Bool
cap_limits_conversations = length (load_sharegpt fixture 1) == 1

unit_tests_pass :
    (parses_and_builds_growing_prompts ≡ some true) × (cap_limits_conversations ≡ true)
unfolding program
unit_tests_pass = (refl, refl)
