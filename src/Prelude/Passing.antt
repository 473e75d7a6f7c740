-- ===== src/Prelude/Passing.antt =====
-- State passing: a computation takes the state and returns its result and the new state.

abbrev pub State : Type 0 → Type 0 → Type 0
State S A = S → A × S

infixl 5 ◌>>=◌ ◌>>◌
abbrev pub ◌>>=◌ : {S A B : Type 0} → State S A → (A → State S B) → State S B
◌>>=◌ m f s = let (a, s') = m s in f a s'

abbrev pub ◌>>◌ : {S A B : Type 0} → State S A → State S B → State S B
m >> k = m >>= λ _. k

abbrev pub return : {S A : Type 0} → A → State S A
return a s = (a, s)
