-- ===== src/HhHeap/Partial.antt =====
-- What a run returns if it returns, to be joined with a proof that it does.
use asap_sketchlib.Prelude.{
  ◌≡◌, refl, Bool, true, false, if◌then◌else◌, Run, ok, panic, out_of_fuel, ◌>>=◌, Returns, returns,
}

-- The run does not end with a value, or the value meets the postcondition.
pub data IfOk {A : Type 0} (Post : A → Type 0) : Run A → Type 0 where
  if_ok : {value : A} → Post value → IfOk Post (ok value)
  if_panic : IfOk Post panic
  if_out_of_fuel : IfOk Post out_of_fuel

pub IfOk-bind :
    {A B : Type 0} {Post : A → Type 0} {Goal : B → Type 0} {run : Run A} {next : A → Run B}
    → IfOk Post run
    → ((value : A) → Post value → IfOk Goal (next value))
    → IfOk Goal (run >>= next)
IfOk-bind (if_ok post) after = after _ post
IfOk-bind if_panic after = if_panic
IfOk-bind if_out_of_fuel after = if_out_of_fuel

pub IfOk-any : {A : Type 0} (run : Run A) → IfOk (λ value. Unit {0}) run
IfOk-any (ok value) = if_ok tt
IfOk-any panic = if_panic
IfOk-any out_of_fuel = if_out_of_fuel

pub IfOk-weak : {A : Type 0} {Post : A → Type 0} {run : Run A} → Returns Post run → IfOk Post run
IfOk-weak (returns post) = if_ok post

pub IfOk-if :
    {A : Type 0} {Post : A → Type 0} {yes_run no_run : Run A} (test : Bool)
    → (test ≡ true → IfOk Post yes_run)
    → (test ≡ false → IfOk Post no_run)
    → IfOk Post (if test then yes_run else no_run)
IfOk-if true on_true on_false = on_true refl
IfOk-if false on_true on_false = on_false refl

pub Returns-and :
    {A : Type 0} {Post Other : A → Type 0} {run : Run A}
    → Returns Post run
    → IfOk Other run
    → Returns (λ value. Post value × Other value) run
Returns-and (returns post) (if_ok other) = returns (post, other)
