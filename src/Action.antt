-- ===== src/Action.antt =====
-- A call of the program: it changes the world `W` and returns a value or an error.
use zvm_extra.Base.{Bool, Result, ok, err, if◌then◌else◌}
use zvm_extra.Bytes.{Bytes}

abbrev pub Action : Type 0 → Type 0 → Type 0
Action W A = W → Result A × W

abbrev pub pure : {W A : Type 0} → A → Action W A
pure a w = (ok a, w)

abbrev pub raise : {W A : Type 0} → Bytes → Action W A
raise m w = (err m, w)

-- The value or the error of a call that changes nothing.
abbrev pub asks : {W A : Type 0} → (W → Result A) → Action W A
asks f w = (f w, w)

infixl 5 ◌>>=◌ ◌>>◌
abbrev pub ◌>>=◌ : {W A B : Type 0} → Action W A → (A → Action W B) → Action W B
◌>>=◌ m f w = let (r, w') = m w in elim r [ ok a ↦ f a w' | err e ↦ (err e, w') ]

abbrev pub ◌>>◌ : {W B : Type 0} → Action W (Unit {0}) → Action W B → Action W B
m >> k = m >>= λ _. k

abbrev pub raise_if : {W : Type 0} → Bool → Bytes → Action W (Unit {0})
raise_if c m w = (if c then err m else ok tt, w)

-- A call whose error is passed over: `a` stands for its value then.
abbrev pub or_else : {W A : Type 0} → Action W A → A → Action W A
or_else m a w = let (r, w') = m w in elim r [ ok b ↦ (ok b, w') | err e ↦ (ok a, w') ]

-- A deferred call: it runs whatever `m` returns.
abbrev pub finally : {W A : Type 0} → Action W A → (W → W) → Action W A
finally m after w = let (r, w') = m w in (r, after w')
