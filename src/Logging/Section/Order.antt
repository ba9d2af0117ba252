-- ===== src/Logging/Section/Order.antt =====
-- The order of the messages in the file and on the terminal.
use projeto_so.Base.{
  ℕ, suc, ◌+◌, ◌≤◌, ◌≡◌, refl, sym, ap, ap₂, ◌∙◌, Bool, true, false, List, [], ◌∷◌, ◌++◌,
  if◌then◌else◌, length, length-append, arith,
}
use mathlib.Core.List.{append-nil, append_assoc}
use projeto_so.Logging.{Message, file_line, screen_text}
use projeto_so.Logging.Section.{LogPhase, Log, Reach, stop, step}
use projeto_so.Logging.Section.Effects.{
  inside_all, ahead_all, Effect, quiet, enters, files, shows, leaves, length-ahead_all, step-Effect,
}

unfoldable pub all_texts : (Message → List ℕ) → List Message → List ℕ
all_texts text [] = []
all_texts text (m ∷ ms) = text m ++ all_texts text ms

all_texts-append :
    (text : Message → List ℕ) (xs ys : List Message)
    → all_texts text (xs ++ ys) ≡ all_texts text xs ++ all_texts text ys
unfolding all_texts
all_texts-append text [] ys = refl
all_texts-append text (x ∷ xs) ys =
    ap (◌++◌ (text x)) (all_texts-append text xs ys)
    ∙ sym (append_assoc (text x) (all_texts text xs) (all_texts text ys))

-- A text behind the others.
all_texts-snoc :
    (text : Message → List ℕ) (old : List ℕ) (xs : List Message) (m : Message)
    → (old ++ all_texts text xs) ++ text m ≡ old ++ all_texts text (xs ++ (m ∷ []))
unfolding all_texts
all_texts-snoc text old xs m =
    append_assoc old (all_texts text xs) (text m)
    ∙ ap (λ t. old ++ (all_texts text xs ++ t)) (sym (append-nil (text m)))
    ∙ ap (◌++◌ old) (sym (all_texts-append text xs (m ∷ [])))

-- Those `done` stand in the file and on the terminal, those ahead in the file alone.
pub record InOrder (file screen : List ℕ) (l : Log) (n : ℕ) (a : List Message) : Type 0 where
  pub done : List Message
  pub count : n ≡ (if l.taken then 1 else 0)
  pub few : length a ≤ n
  pub on_file : l.file ≡ file ++ all_texts file_line (done ++ a)
  pub on_screen : l.screen ≡ screen ++ all_texts screen_text done

pub at_most_one : (b : Bool) → (if b then 1 else 0) ≤ 1
at_most_one true = omega arith
at_most_one false = omega arith

empty_lem : {A : Type 0} (xs : List A) → length xs ≤ 0 → xs ≡ []
empty_lem [] h = refl
empty_lem (x ∷ xs) h = absurd (omega arith)

nothing_around : {A : Type 0} (x y : List A) → length x + length y ≤ 0 → (x ≡ []) × (y ≡ [])
nothing_around x y h = (empty_lem x (omega arith), empty_lem y (omega arith))

module _ {file screen : List ℕ} where
  Effect-InOrder :
      {l l2 : Log} {n n2 : ℕ} {a a2 : List Message}
      → length a2 ≤ n2
      → Effect l n a l2 n2 a2
      → InOrder file screen l n a
      → InOrder file screen l2 n2 a2
  Effect-InOrder h (quiet e f) v = record {
    done = v.done;
    count = e ∙ v.count;
    few = h;
    on_file = v.on_file ∙ ap (λ b. file ++ all_texts file_line (v.done ++ b)) (sym f);
    on_screen = v.on_screen;
  }
  Effect-InOrder {l} h (enters t e f) v = record {
    done = v.done;
    count = e ∙ ap suc (v.count ∙ ap (λ b. if b then 1 else 0) t);
    few = h;
    on_file = v.on_file ∙ ap (λ b. file ++ all_texts file_line (v.done ++ b)) (sym f);
    on_screen = v.on_screen;
  }
  Effect-InOrder {l} {a} h (files x y m b e f g) v =
      let alone =
        nothing_around x y
          (omega (arith, length-append x y, ap length f, v.count, at_most_one l.taken)) in
      let none_yet : a ≡ [] = f ∙ ap₂ ◌++◌ alone.0 alone.1 in
      let now = g ∙ ap₂ (λ c d. c ++ (m ∷ d)) alone.0 alone.1 in
      record {
        done = v.done;
        count = e ∙ v.count;
        few = h;
        on_file =
            ap (λ t. t ++ file_line m)
              (v.on_file
                ∙ ap (λ c. file ++ all_texts file_line c)
                    (ap (◌++◌ v.done) none_yet ∙ append-nil v.done))
            ∙ all_texts-snoc file_line file v.done m
            ∙ ap (λ c. file ++ all_texts file_line (v.done ++ c)) (sym now);
        on_screen = v.on_screen;
      }
  Effect-InOrder {l} {a} {a2} h (shows x y m e f g) v =
      let alone = nothing_around x y (
        omega (arith, length-append x (m ∷ y), ap length f, v.few, v.count, at_most_one l.taken)) in
      let one : a ≡ m ∷ [] = f ∙ ap₂ (λ c d. c ++ (m ∷ d)) alone.0 alone.1 in
      let now : a2 ≡ [] = g ∙ ap₂ ◌++◌ alone.0 alone.1 in
      record {
        done = v.done ++ (m ∷ []);
        count = e ∙ v.count;
        few = h;
        on_file =
            v.on_file
            ∙ ap (λ c. file ++ all_texts file_line c)
                (ap (◌++◌ v.done) one
                  ∙ sym (append-nil _)
                  ∙ ap (◌++◌ (v.done ++ (m ∷ []))) (sym now));
        on_screen =
            ap (λ t. t ++ screen_text m) v.on_screen ∙ all_texts-snoc screen_text screen v.done m;
      }
  Effect-InOrder {l} h (leaves e f) v = record {
    done = v.done;
    count = omega (arith, v.count, at_most_one l.taken, e);
    few = h;
    on_file = v.on_file ∙ ap (λ b. file ++ all_texts file_line (v.done ++ b)) (sym f);
    on_screen = v.on_screen;
  }

module _ (ps : List (List LogPhase)) (l : Log) (outside : inside_all ps ≡ 0)
    (free : l.taken ≡ false) where
  pub Reach-InOrder :
      (qs : List (List LogPhase)) (l2 : Log)
      → Reach ps l qs l2
      → InOrder l.file l.screen l2 (inside_all qs) (ahead_all qs)
  unfolding all_texts
  Reach-InOrder qs l2 stop =
      let none_ahead = empty_lem (ahead_all ps) (omega (arith, length-ahead_all ps, outside)) in
      record {
        done = [];
        count = outside ∙ ap (λ b. if b then 1 else 0) (sym free);
        few = length-ahead_all ps;
        on_file = sym (ap (λ a. l.file ++ all_texts file_line a) none_ahead ∙ append-nil l.file);
        on_screen = sym (append-nil l.screen);
      }
  Reach-InOrder qs l2 (step {qs = rs} {l2 = l1} r s) =
      Effect-InOrder (length-ahead_all qs) (step-Effect s) (Reach-InOrder rs l1 r)

  -- In whatever order threads log, signals with handlers that log included, the file and the
  -- terminal get the same whole messages in the same order, the terminal being at most one behind,
  -- and that only while the semaphore is taken, if it is free and no call is in its section at
  -- first.
  pub Reach-SameOrder :
      (qs : List (List LogPhase)) (l2 : Log)
      → Reach ps l qs l2
      → (done : List Message) × (late : List Message) × (length late ≤ (if l2.taken then 1 else 0))
        × (l2.file ≡ l.file ++ all_texts file_line (done ++ late))
        × (l2.screen ≡ l.screen ++ all_texts screen_text done)
  Reach-SameOrder qs l2 r =
      let v = Reach-InOrder qs l2 r in
      (v.done, ahead_all qs, omega (arith, v.few, v.count), v.on_file, v.on_screen)
