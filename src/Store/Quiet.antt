-- ===== src/Store/Quiet.antt =====
-- What a step calls outside: nothing, or how many texts.
use whatsapp_bot.Prelude.{
  ℕ, ◌+◌, ◌≤◌, ◌≡◌, refl, ◌∙◌, Bool, true, false, List, [], ◌∷◌, count, inl, inr, arith,
  if◌then◌else◌,
}
use whatsapp_bot.Store.Session.{
  World, M, Result-cases, Error, Outgoing, attempt, scalar_one_or_none, ◌>>=◌,
}

-- A step that calls nothing outside.
abbrev pub Quiet : {A : Type 0} → M A → World → Type 0
Quiet m w = (m w).1.outbox ≡ w.outbox

-- A step that calls nothing adds nothing to the calls of the step before it.
pub outbox-bind :
    {A B : Type 0} (m : M A) (f : A → M B) (w : World)
    → ((a : A) (w' : World) → Quiet (f a) w')
    → ((m >>= f) w).1.outbox ≡ (m w).1.outbox
outbox-bind m f w h = elim (Result-cases (m w)) [
  | inl (a, w', done) ↦ rw done (h a w')
  | inr (e, w', failed) ↦ rw failed refl
]

pub outbox-attempt :
    {A : Type 0} (m : M A) (h : Error → M A) (w : World)
    → ((e : Error) (w' : World) → Quiet (h e) w')
    → (attempt m h w).1.outbox ≡ (m w).1.outbox
outbox-attempt m h w quiet = elim (Result-cases (m w)) [
  | inl (a, w', done) ↦ rw done refl
  | inr (e, w', failed) ↦ rw failed (quiet e w')
]

pub bind-Quiet :
    {A B : Type 0} (m : M A) (f : A → M B) {w : World}
    → Quiet m w
    → ((a : A) (w' : World) → Quiet (f a) w')
    → Quiet (m >>= f) w
bind-Quiet m f {w = w} first rest = outbox-bind m f w rest ∙ first

pub scalar-Quiet : {A : Type 0} (rows : List A) (w : World) → Quiet (scalar_one_or_none rows) w
scalar-Quiet [] w = refl
scalar-Quiet (x ∷ []) w = refl
scalar-Quiet (x ∷ y ∷ rows) w = refl

abbrev pub is_text : Outgoing → Bool
is_text (Outgoing.send_text _ _) = true
is_text (Outgoing.send_template _ _ _ _) = false
is_text (Outgoing.mark_as_read _) = false

abbrev pub texts : World → ℕ
texts w = count is_text w.outbox

-- A step sends at most `n` texts.
abbrev pub Texts : ℕ → {A : Type 0} → M A → World → Type 0
Texts n m w = texts (m w).1 ≤ texts w + n

pub Quiet-Texts : {A : Type 0} (n : ℕ) (m : M A) {w : World} → Quiet m w → Texts n m w
Quiet-Texts n m quiet = rw quiet (omega arith)

pub bind-Texts :
    (a b : ℕ) {A B : Type 0} (m : M A) (f : A → M B) (w : World)
    → Texts a m w
    → ((x : A) (w' : World) → Texts b (f x) w')
    → Texts (a + b) (m >>= f) w
bind-Texts a b m f w first rest = elim (Result-cases (m w)) [
  | inl (x, w', done) ↦ rw done (let one = rw done at first in omega (arith, one, rest x w'))
  | inr (e, w', failed) ↦ rw failed (let one = rw failed at first in omega (arith, one))
]

pub attempt-Texts :
    (n : ℕ) {A : Type 0} (m : M A) (h : Error → M A) (w : World)
    → Texts n m w
    → ((e : Error) (w' : World) → Quiet (h e) w')
    → Texts n (attempt m h) w
attempt-Texts n m h w body quiet = rw (outbox-attempt m h w quiet) body

pub if-Quiet :
    {A : Type 0} (b : Bool) (m n : M A) (w : World)
    → Quiet m w
    → Quiet n w
    → Quiet (if b then m else n) w
if-Quiet true m n w first second = first
if-Quiet false m n w first second = second

pub if-Texts :
    (k : ℕ) {A : Type 0} (b : Bool) (m n : M A) (w : World)
    → Texts k m w
    → Texts k n w
    → Texts k (if b then m else n) w
if-Texts k true m n w first second = first
if-Texts k false m n w first second = second
