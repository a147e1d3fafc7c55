-- ===== src/Cli/Contexts/Chains.antt =====
-- What a chain of checks that succeeds has established, and what a flag that was not set leaves.
use agent_smith_go.Base.{◌≡◌, refl, arith, Bool, true, false, not, List, [], ◌∷◌, Bytes}
use agent_smith_go.Interpreter.Message.{Except, done, failed, ◌>>=◌, ◌>>◌}
use agent_smith_go.Cli.Flags.Parse.{Value, Setting, Parsed, bad_flag, settings, value_of, is_set}
use agent_smith_go.Cli.Contexts.{parsed_flags, require}

pub is_false : (b : Bool) → not b ≡ true → b ≡ false
is_false true h = absurd cc
is_false false h = refl

pub require_holds : (b : Bool) (message : Bytes) → require b message ≡ done tt → b ≡ true
unfolding require
require_holds true message h = refl
require_holds false message h = absurd cc

pub and_then_done {ℓ} :
    {B : Type ℓ} (m : Except (Unit {0})) (k : Except B) (b : B)
    → (m >> k) ≡ done b
    → (m ≡ done tt) × (k ≡ done b)
and_then_done (done tt) k b h = (refl, h)
and_then_done (failed e) k b h = absurd cc

pub bind_done {ℓ κ} :
    {A : Type ℓ} {B : Type κ} (m : Except A) (f : A → Except B) (b : B)
    → (m >>= f) ≡ done b
    → (a : A) × (m ≡ done a) × (f a ≡ done b)
bind_done (done a) f b h = (a, refl, h)
bind_done (failed e) f b h = absurd cc

pub done_injective {ℓ} : {A : Type ℓ} (a b : A) → done a ≡ done b → a ≡ b
done_injective a b h = cc

pub value_of_unset :
    (name : Bytes) (v : Value) (l : List Setting) → is_set name l ≡ false → value_of name v l ≡ v
unfolding value_of is_set
value_of_unset name v [] h = refl
value_of_unset name v ((n, w) ∷ l) h = ground (arith, value_of_unset name v l)

pub parsed_done : (p : Parsed) (l : List Setting) → parsed_flags p ≡ done l → p ≡ settings l
unfolding parsed_flags
parsed_done bad_flag l h = absurd cc
parsed_done (settings m) l h = cc
