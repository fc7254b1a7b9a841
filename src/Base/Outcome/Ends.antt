-- ===== src/Base/Outcome/Ends.antt =====
-- A call that ends without a fault, with a postcondition for each way to end, and its rules.
use mathlib.Core.Path.{◌≡◌}
use mathlib.Core.List.{List, [], ◌∷◌}
use mathlib.Core.Option.{Option, some}
use hybridnet.Base.Outcome.{M, Outcome, ok, err, fault, zoom, on_error, for_each}

-- `F` holds of the state that an error leaves, `Q` of the state and the result of a success; a fault
-- is excluded.
abbrev pub Ends : {S E A : Type 0} → (S → Type 0) → (S → A → Type 0) → Outcome S E A → Type 0
Ends F Q (ok s a) = Q s a
Ends F Q (err s e) = F s
Ends F Q (fault x) = ⊥

module _ {S E A : Type 0} (F : S → Type 0) (Q : S → A → Type 0) where
  pub Ends-bind :
      {B : Type 0} (R : S → B → Type 0) (o : Outcome S E A) (f : A → M S E B)
      → Ends F Q o
      → ((s : S) (a : A) → Q s a → Ends F R (f a s))
      → Ends F R (elim o [ ok t a ↦ f a t | err t e ↦ err t e | fault x ↦ fault x ])
  Ends-bind R (ok s a) f h k = k s a h
  Ends-bind R (err s e) f h k = h
  Ends-bind R (fault x) f h k = h

  pub Ends-wrap_err :
      (w : E → E) (o : Outcome S E A)
      → Ends F Q o
      → Ends F Q (elim o [ ok t a ↦ ok t a | err t e ↦ err t (w e) | fault x ↦ fault x ])
  Ends-wrap_err w (ok s a) h = h
  Ends-wrap_err w (err s e) h = h
  Ends-wrap_err w (fault x) h = h

  -- A weaker postcondition.
  pub Ends-mono :
      (F' : S → Type 0) (Q' : S → A → Type 0) (o : Outcome S E A)
      → Ends F Q o
      → ((s : S) → F s → F' s)
      → ((s : S) (a : A) → Q s a → Q' s a)
      → Ends F' Q' o
  Ends-mono F' Q' (ok s a) h f q = q s a h
  Ends-mono F' Q' (err s e) h f q = f s h
  Ends-mono F' Q' (fault x) h f q = h

  pub Ends-ok : (o : Outcome S E A) {s : S} {a : A} → Ends F Q o → o ≡ ok s a → Q s a
  Ends-ok o h e = rw e at h

-- A method of a part: its postconditions are read through the change of the whole.
pub Ends-put :
    {S T E A : Type 0} (F : S → Type 0) (Q : S → A → Type 0) (put : T → S) (o : Outcome T E A)
    → Ends (λ t. F (put t)) (λ t. Q (put t)) o
    → Ends F Q (elim o [ ok t a ↦ ok (put t) a | err t e ↦ err (put t) e | fault x ↦ fault x ])
Ends-put F Q put (ok s a) h = h
Ends-put F Q put (err s e) h = h
Ends-put F Q put (fault x) h = h

-- A method of a part that is there.
pub zoom-Ends :
    {S T E A : Type 0} (F : S → Type 0) (Q : S → A → Type 0) (get : S → Option T) (put : T → S → S)
    (m : M T E A) (s : S) (t : T)
    → get s ≡ some t
    → Ends (λ u. F (put u s)) (λ u. Q (put u s)) (m t)
    → Ends F Q (zoom get put m s)
zoom-Ends F Q get put m s t e h = rw (e, Ends, zoom) (Ends-put F Q (λ u. put u s) (m t) h)

module _ {S E : Type 0} where
  -- A deferred call that undoes what an error has left.
  pub on_error-Ends :
      {A : Type 0} (F G : S → Type 0) (Q : S → A → Type 0) (undo : M S E (Unit {0})) (m : M S E A)
      (s : S)
      → Ends F Q (m s)
      → ((t : S) → F t → Ends G (λ u _. G u) (undo t))
      → Ends G Q (on_error undo m s)
  on_error-Ends {A} F G Q undo m s h k = of (m s) h
    where
      after :
          (e : E) (o : Outcome S E (Unit {0}))
          → Ends G (λ u _. G u) o
          → Ends {A = A} G Q (elim o [ ok u _ ↦ err u e | err u _ ↦ err u e | fault x ↦ fault x ])
      after e (ok u a) h = h
      after e (err u d) h = h
      after e (fault x) h = h

      of :
          (o : Outcome S E A)
          → Ends F Q o
          → Ends G Q (elim o [
            | ok t a ↦ ok t a
            | err t e ↦ elim (undo t) [ ok u _ ↦ err u e | err u _ ↦ err u e | fault x ↦ fault x ]
            | fault x ↦ fault x
          ])
      of (ok t a) h = h
      of (err t e) h = after e (undo t) (k t h)
      of (fault x) h = h

  -- A loop, with an invariant that sees what is left of the list.
  pub for_each-Ends :
      {A : Type 0} (F : S → Type 0) (I : List A → S → Type 0) (f : A → M S E (Unit {0}))
      → ((x : A) (xs : List A) (s : S) → I (x ∷ xs) s → Ends F (λ u _. I xs u) (f x s))
      → (xs : List A) (s : S) → I xs s
      → Ends F (λ u _. I [] u) (for_each f xs s)
  unfolding for_each
  for_each-Ends F I f step [] s h = h
  for_each-Ends F I f step (x ∷ xs) s h =
      Ends-bind F (λ u _. I xs u) (λ u _. I [] u) (f x s) (λ _. for_each f xs) (step x xs s h)
        (λ u _ k. for_each-Ends F I f step xs u k)
