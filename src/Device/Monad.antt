-- ===== src/Device/Monad.antt =====
-- The shape of the handlers of qemu-device/velocitor.c that return false, or return early, and keep
-- what they did to the state by then. The moves stay shut; a proof that runs them unfolds `run`.
use linux_pci_driver.Common.{Option, none, some, Bool, true, false}
use linux_pci_driver.Device.State.{VelocitorState}

abbrev pub M : Type 0 → Type 0
M A = VelocitorState → Option A × VelocitorState

unfoldable pub after :
    {A B : Type 0} → Option A × VelocitorState → (A → M B) → Option B × VelocitorState
after (none, s) f = (none, s)
after (some a, s) f = f a s

infixl 5 ◌>>=◌ ◌>>◌
unfoldable pub ◌>>=◌ : {A B : Type 0} → M A → (A → M B) → M B
unfolding after
◌>>=◌ m f s = after (m s) f

abbrev pub ◌>>◌ : {A B : Type 0} → M A → M B → M B
m >> k = m >>= λ _. k

unfoldable pub pure : {A : Type 0} → A → M A
pure a s = (some a, s)

unfoldable pub stop : {A : Type 0} → M A
stop s = (none, s)

unfoldable pub modify : (VelocitorState → VelocitorState) → M (Unit {0})
modify f s = (some tt, f s)

unfoldable pub get : M VelocitorState
get s = (some s, s)

-- A function that always returns.
unfoldable pub lift : {A : Type 0} → (VelocitorState → A × VelocitorState) → M A
lift f s = let (a, t) = f s in (some a, t)

-- A call whose outcome the caller ignores.
unfoldable pub attempt : {A : Type 0} → M A → M (Unit {0})
attempt m s = (some tt, (m s).1)

unfoldable pub after_failure :
    {A : Type 0}
    → Option A × VelocitorState
    → (VelocitorState → VelocitorState)
    → Option A × VelocitorState
after_failure (none, s) f = (none, f s)
after_failure (some a, s) f = (some a, s)

-- What is done before the handler returns because a step failed.
unfoldable pub on_failure : {A : Type 0} → M A → (VelocitorState → VelocitorState) → M A
unfolding after_failure
on_failure m f s = after_failure (m s) f

unfoldable pub when_else : {A : Type 0} → Bool → M A → M A → M A
when_else true a b = a
when_else false a b = b

unfoldable pub run : Unit {0}
unfolding ◌>>=◌ pure stop modify get lift attempt on_failure when_else
run = tt
