-- ===== src/Logging/Section/Effects.antt =====
-- What one step of a process that logs does to the log and to the messages that are on their way.
use projeto_so.Base.{
  ℕ, suc, ◌+◌, ◌≤◌, ◌<◌, ◌≡◌, refl, sym, ap, subst, ◌∙◌, true, false, List, [], ◌∷◌, ◌++◌, none,
  some, if◌then◌else◌, length, length-append, arith, inl, inr, Bool-cases, some_inj,
}
use mathlib.Core.List.{append_assoc}
use projeto_so.Logging.{Message, file_line, screen_text}
use projeto_so.Logging.Section.{
  LogPhase, idle, waiting, entered, filed, shown, Log, log_step, ThreadStep, run, call_log, signal,
  back, Step, here, there,
}

-- How many calls are inside their sections.
unfoldable pub inside : LogPhase → ℕ
inside idle = 0
inside (waiting m) = 0
inside (entered m) = 1
inside (filed m) = 1
inside shown = 1

unfoldable pub inside_thread : List LogPhase → ℕ
inside_thread [] = 0
inside_thread (f ∷ stack) = inside f + inside_thread stack

unfoldable pub inside_all : List (List LogPhase) → ℕ
inside_all [] = 0
inside_all (s ∷ rest) = inside_thread s + inside_all rest

-- The messages that stand in the file, and not yet on the terminal.
unfoldable pub ahead : LogPhase → List Message
ahead (filed m) = m ∷ []
ahead _ = []

unfoldable pub ahead_thread : List LogPhase → List Message
ahead_thread [] = []
ahead_thread (f ∷ stack) = ahead f ++ ahead_thread stack

unfoldable pub ahead_all : List (List LogPhase) → List Message
ahead_all [] = []
ahead_all (s ∷ rest) = ahead_thread s ++ ahead_all rest

-- What a step does to the log, the count and the messages ahead.
pub data Effect (l : Log) (n : ℕ) (a : List Message) : Log → ℕ → List Message → Type 0 where
  quiet : {n2 : ℕ} {a2 : List Message} → n2 ≡ n → a2 ≡ a → Effect l n a l n2 a2
  enters :
      {n2 : ℕ} {a2 : List Message}
      → l.taken ≡ false
      → n2 ≡ suc n
      → a2 ≡ a
      → Effect l n a (record l { taken = true }) n2 a2
  files :
      {n2 : ℕ} {a2 : List Message} (x y : List Message) (m : Message)
      → length a < n
      → n2 ≡ n
      → a ≡ x ++ y
      → a2 ≡ x ++ (m ∷ y)
      → Effect l n a (record l { file = l.file ++ file_line m }) n2 a2
  shows :
      {n2 : ℕ} {a2 : List Message} (x y : List Message) (m : Message)
      → n2 ≡ n
      → a ≡ x ++ (m ∷ y)
      → a2 ≡ x ++ y
      → Effect l n a (record l { screen = l.screen ++ screen_text m }) n2 a2
  leaves :
      {n2 : ℕ} {a2 : List Message}
      → n ≡ suc n2
      → a2 ≡ a
      → Effect l n a (record l { taken = false }) n2 a2

-- Others stand before it in the list.
Effect-others :
    {l l2 : Log} {n n2 : ℕ} {a a2 : List Message} (k : ℕ) (c : List Message)
    → length c ≤ k
    → Effect l n a l2 n2 a2
    → Effect l (k + n) (c ++ a) l2 (k + n2) (c ++ a2)
Effect-others k c h (quiet e f) = quiet (ap (◌+◌ k) e) (ap (◌++◌ c) f)
Effect-others k c h (enters t e f) = enters t (omega arith) (ap (◌++◌ c) f)
Effect-others {a} k c h (files x y m b e f g) =
    files (c ++ x) y m (omega (arith, length-append c a)) (ap (◌+◌ k) e)
      (ap (◌++◌ c) f ∙ sym (append_assoc c x y)) (ap (◌++◌ c) g ∙ sym (append_assoc c x (m ∷ y)))
Effect-others k c h (shows x y m e f g) =
    shows (c ++ x) y m (ap (◌+◌ k) e) (ap (◌++◌ c) f ∙ sym (append_assoc c x (m ∷ y)))
      (ap (◌++◌ c) g ∙ sym (append_assoc c x y))
Effect-others k c h (leaves e f) = leaves (omega arith) (ap (◌++◌ c) f)

-- Others stand behind it.
Effect-before :
    {l l2 : Log} {n n2 : ℕ} {a a2 : List Message} (k : ℕ) (c : List Message)
    → length c ≤ k
    → Effect l n a l2 n2 a2
    → Effect l (n + k) (a ++ c) l2 (n2 + k) (a2 ++ c)
Effect-before k c h (quiet e f) = quiet (ap (λ n. n + k) e) (ap (λ a. a ++ c) f)
Effect-before k c h (enters t e f) = enters t (omega arith) (ap (λ a. a ++ c) f)
Effect-before {a} k c h (files x y m b e f g) =
    files x (y ++ c) m (omega (arith, length-append a c)) (ap (λ n. n + k) e)
      (ap (λ a. a ++ c) f ∙ append_assoc x y c) (ap (λ a. a ++ c) g ∙ append_assoc x (m ∷ y) c)
Effect-before k c h (shows x y m e f g) =
    shows x (y ++ c) m (ap (λ n. n + k) e) (ap (λ a. a ++ c) f ∙ append_assoc x (m ∷ y) c)
      (ap (λ a. a ++ c) g ∙ append_assoc x y c)
Effect-before k c h (leaves e f) = leaves (omega arith) (ap (λ a. a ++ c) f)

length-ahead : (f : LogPhase) → length (ahead f) ≤ inside f
unfolding ahead inside
length-ahead idle = omega arith
length-ahead (waiting m) = omega arith
length-ahead (entered m) = omega arith
length-ahead (filed m) = omega arith
length-ahead shown = omega arith

length-ahead_thread : (s : List LogPhase) → length (ahead_thread s) ≤ inside_thread s
unfolding ahead_thread inside_thread
length-ahead_thread [] = omega arith
length-ahead_thread (f ∷ s) =
    omega (arith, length-append (ahead f) (ahead_thread s), length-ahead f, length-ahead_thread s)

pub length-ahead_all : (ps : List (List LogPhase)) → length (ahead_all ps) ≤ inside_all ps
unfolding ahead_all inside_all
length-ahead_all [] = omega arith
length-ahead_all (s ∷ ps) = omega (
  arith,
  length-append (ahead_thread s) (ahead_all ps),
  length-ahead_thread s,
  length-ahead_all ps,
)

abbrev EffectOf : LogPhase → Log → LogPhase × Log → Type 0
EffectOf f l (g, l2) = Effect l (inside f) (ahead f) l2 (inside g) (ahead g)

log_step-Effect : (f g : LogPhase) (l l2 : Log) → log_step f l ≡ some (g, l2) → EffectOf f l (g, l2)
unfolding log_step inside ahead
log_step-Effect idle g l l2 e = cc e
log_step-Effect (waiting m) g l l2 e = elim (Bool-cases l.taken) [
  | inl t ↦
      cc (ap (λ b. if b then none else some (entered m, record l { taken = true })) (sym t) ∙ e)
  | inr t ↦
      subst (EffectOf (waiting m) l)
        (some_inj
          (ap (λ b. if b then none else some (entered m, record l { taken = true })) (sym t) ∙ e))
        (enters t refl refl)
]
log_step-Effect (entered m) g l l2 e =
    subst (EffectOf (entered m) l) (some_inj e) (files [] [] m (omega arith) refl refl refl)
log_step-Effect (filed m) g l l2 e =
    subst (EffectOf (filed m) l) (some_inj e) (shows [] [] m refl refl refl)
log_step-Effect shown g l l2 e = subst (EffectOf shown l) (some_inj e) (leaves refl refl)

move-Effect :
    {s t : List LogPhase} {l l2 : Log}
    → ThreadStep s l t l2
    → Effect l (inside_thread s) (ahead_thread s) l2 (inside_thread t) (ahead_thread t)
unfolding inside_thread ahead_thread inside ahead
move-Effect (run {f} {g} {stack} {l} {l2} e) =
    Effect-before (inside_thread stack) (ahead_thread stack) (length-ahead_thread stack)
      (log_step-Effect f g l l2 e)
move-Effect (call_log m) = quiet (omega arith) refl
move-Effect (signal m) = quiet (omega arith) refl
move-Effect back = quiet (omega arith) refl

pub step-Effect :
    {ps qs : List (List LogPhase)} {l l2 : Log}
    → Step ps l qs l2
    → Effect l (inside_all ps) (ahead_all ps) l2 (inside_all qs) (ahead_all qs)
unfolding inside_all ahead_all
step-Effect (here {rest} v) =
    Effect-before (inside_all rest) (ahead_all rest) (length-ahead_all rest) (move-Effect v)
step-Effect (there {s} v) =
    Effect-others (inside_thread s) (ahead_thread s) (length-ahead_thread s) (step-Effect v)
