-- ===== src/Persist/Program.antt =====
-- The fallible programs of src/persist: a state that is threaded through, and `?` as the bind. What a
-- program has done to the state stays done when it fails.
use orpheusgraph.Prelude.{◌≡◌, refl, arith, Bool, Option, none, some, if◌then◌else◌, ◌⊎◌, inl, inr}
use orpheusgraph.Persist.Error.{PersistError, Result, ok, err}

abbrev pub Program : Type 0 → Type 0 → Type 0 → Type 0
Program E S A = S → Result E A × S

module _ {E S A : Type 0} where
  abbrev pub pure : A → Program E S A
  pure a s = (ok a, s)

  abbrev pub fail : PersistError E → Program E S A
  fail e s = (err e, s)

  abbrev pub gets : (S → A) → Program E S A
  gets f s = (ok (f s), s)

  -- `?` on a value
  abbrev pub of_result : Result E A → Program E S A
  of_result r s = (r, s)

  -- a call that makes a handle or a value
  abbrev pub io_get : (S → (E ⊎ A) × S) → Program E S A
  io_get call s =
      let (r, s1) = call s in elim r [ inl e ↦ (err (PersistError.io e), s1) | inr a ↦ (ok a, s1) ]

module _ {E S : Type 0} where
  abbrev pub modify : (S → S) → Program E S Unit
  modify f s = (ok tt, f s)

  abbrev pub fail_if : Bool → PersistError E → Program E S Unit
  fail_if c e s = (if c then err e else ok tt, s)

  -- a call that answers nothing but success
  abbrev pub io_call : (S → Option E × S) → Program E S Unit
  io_call call s =
      let (r, s1) = call s in elim r [ some e ↦ (err (PersistError.io e), s1) | none ↦ (ok tt, s1) ]

abbrev pub and_then : {E S A B : Type 0} → Result E A × S → (A → Program E S B) → Result E B × S
and_then (ok a, s) f = f a s
and_then (err e, s) f = (err e, s)

infixl 5 ◌>>=◌ ◌>>◌
abbrev pub ◌>>=◌ : {E S A B : Type 0} → Program E S A → (A → Program E S B) → Program E S B
◌>>=◌ m f s = and_then (m s) f

abbrev pub ◌>>◌ : {E S A B : Type 0} → Program E S A → Program E S B → Program E S B
m >> k = m >>= λ _. k

-- a program on a part of the state
abbrev pub zoom : {E S T A : Type 0} → (S → T) → (T → S → S) → Program E T A → Program E S A
zoom part put m s = ((m (part s)).0, put (m (part s)).1 s)

-- A program that owns a handle beside the state. When it fails the handle goes out of scope.
unfoldable pub owning :
    {E S H A : Type 0} → (drop_handle : H → S → S) → H → Program E (H × S) A → Program E S (A × H)
owning drop_handle handle m s =
    let (r, (h, s1)) = m (handle, s) in
    elim r [ ok a ↦ (ok (a, h), s1) | err e ↦ (err e, drop_handle h s1) ]

-- What a chain that answers `b` has done: its first step, and the rest from there.
pub record Ran {E S A B : Type 0} (out : Result E A × S) (f : A → Program E S B) (b : B)
    : Type 0 where
  pub value : A
  pub state : S
  pub first : out ≡ (ok value, state)
  pub whole : and_then out f ≡ f value state
  pub rest : (f value state).0 ≡ ok b

pub and_then-Ran :
    {E S A B : Type 0} (out : Result E A × S) (f : A → Program E S B) (b : B)
    → (and_then out f).0 ≡ ok b
    → Ran out f b
and_then-Ran (ok a, s1) f b h = record {
  value = a;
  state = s1;
  first = refl;
  whole = refl;
  rest = h;
}
and_then-Ran (err e, s1) f b h = ground (arith, h)

-- The same for a first step that is written out as its answer and its state.
pub record Went {E S A B : Type 0} (r : Result E A) (s : S) (f : A → Program E S B) (b : B)
    : Type 0 where
  pub value : A
  pub answered : r ≡ ok value
  pub whole : and_then (r, s) f ≡ f value s
  pub rest : (f value s).0 ≡ ok b

pub and_then-Went :
    {E S A B : Type 0} (r : Result E A) (s : S) (f : A → Program E S B) (b : B)
    → (and_then (r, s) f).0 ≡ ok b
    → Went r s f b
and_then-Went (ok a) s f b h = record { value = a; answered = refl; whole = refl; rest = h }
and_then-Went (err e) s f b h = ground (arith, h)

-- A chain that fails has failed in its first step, or in the rest after it.
pub and_then-err :
    {E S A B : Type 0} (P Q : S → Type 0) (out : Result E A × S) (f : A → Program E S B)
    (e : PersistError E)
    → ((x : PersistError E) → out.0 ≡ err x → P out.1)
    → ((a : A) → out.0 ≡ ok a → Q out.1)
    → ((a : A) (s : S) → Q s → (f a s).0 ≡ err e → P (f a s).1)
    → (and_then out f).0 ≡ err e
    → P (and_then out f).1
and_then-err P Q (ok a, s1) f e now kept later h = later a s1 (kept a refl) h
and_then-err P Q (err x, s1) f e now kept later h = now x refl

-- What every step keeps, however it ends, a chain keeps.
pub and_then-keeps :
    {E S A B : Type 0} (P : S → Type 0) (out : Result E A × S) (f : A → Program E S B)
    → P out.1
    → ((a : A) (s : S) → P s → P (f a s).1)
    → P (and_then out f).1
and_then-keeps P (ok a, s1) f h k = k a s1 h
and_then-keeps P (err e, s1) f h k = h

pub io_get-ok :
    {E S A : Type 0} (call : S → (E ⊎ A) × S) (s s1 : S) (a : A)
    → io_get call s ≡ (ok a, s1)
    → ((call s).0 ≡ inr a) × ((call s).1 ≡ s1)
io_get-ok call s s1 a h = ground (arith, h)

pub io_call-ok :
    {E S : Type 0} (call : S → Option E × S) (s s1 : S) (u : Unit)
    → io_call call s ≡ (ok u, s1)
    → ((call s).0 ≡ none) × ((call s).1 ≡ s1)
io_call-ok call s s1 u h = ground (arith, h)

pub io_call_state :
    {E S : Type 0} (call : S → Option E × S) (s : S) → (io_call call s).1 ≡ (call s).1
io_call_state call s = ground arith
