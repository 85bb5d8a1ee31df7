-- ===== src/Logger/Format.antt =====
-- common/logging.h: a format that is written from a template is read back as that template.
use yquant_system.Base.{
  ℕ, ◌≡◌, Bool, true, false, not, Option, none, some, List, [], ◌∷◌, ◌++◌, ◌==◌, if◌then◌else◌,
  refl, sym, ◌∙◌, ap, arith, Bool-cases, inl, inr, ==→eq,
}
use mathlib.Core.Option
use mathlib.Core.List.{append_assoc, append-nil}
use yquant_system.Logger.{
  Text, percent, char, Value, element, string, LogQueue, Ostream, write_element, flush_queue,
  push_string, push_value, log, substitute,
}

-- What a format stands for: characters, and places for values.
pub data Piece : Type 0 where
  literal : ℕ → Piece
  hole : Piece

abbrev pub Template : Type 0
Template = List Piece

-- The format string of a template: a literal `%` is doubled.
abbrev pub print : Template → Text
print [] = []
print (literal c ∷ t) = if c == percent then percent ∷ percent ∷ print t else c ∷ print t
print (hole ∷ t) = percent ∷ print t

abbrev pub is_plain : Piece → Bool
is_plain (literal c) = not (c == percent)
is_plain hole = false

abbrev pub starts_plain : Template → Bool
starts_plain [] = true
starts_plain (p ∷ t) = is_plain p

-- After a place for a value stands no second one and no literal `%`.
abbrev pub IsPrintable : Template → Type 0
IsPrintable [] = Unit {0}
IsPrintable (literal c ∷ t) = IsPrintable t
IsPrintable (hole ∷ t) = (starts_plain t ≡ true) × IsPrintable t

abbrev pub text_of : Ostream → Value → Text
text_of o (element e) = write_element o e
text_of o (string s) = s

-- The text with the values in their places; there must be one value for each place.
abbrev pub fill : Ostream → Template → List Value → Option Text
fill o [] [] = some []
fill o [] (v ∷ vs) = none
fill o (literal c ∷ t) vs = Option.map (λ s. c ∷ s) (fill o t vs)
fill o (hole ∷ t) [] = none
fill o (hole ∷ t) (v ∷ vs) = Option.map (λ s. text_of o v ++ s) (fill o t vs)

flush-append :
    (o : Ostream) (q r : LogQueue) (file : Text)
    → flush_queue o (q ++ r) file ≡ flush_queue o r (flush_queue o q file)
unfolding flush_queue
flush-append o [] r file = refl
flush-append o (e ∷ q) r file = flush-append o q r (file ++ write_element o e)

flush-push_string :
    (o : Ostream) (s : Text) (q : LogQueue) (file : Text)
    → flush_queue o (push_string s q) file ≡ flush_queue o q file ++ s
unfolding push_string write_element flush_queue
flush-push_string o [] q file = sym (append-nil (flush_queue o q file))
flush-push_string o (c ∷ s) q file =
    flush-push_string o s (q ++ char c ∷ []) file
    ∙ ap (λ f. f ++ s) (flush-append o q (char c ∷ []) file)
    ∙ append_assoc (flush_queue o q file) (c ∷ []) s

flush-push_value :
    (o : Ostream) (v : Value) (q : LogQueue) (file : Text)
    → flush_queue o (push_value v q) file ≡ flush_queue o q file ++ text_of o v
unfolding push_value flush_queue
flush-push_value o (element e) q file = flush-append o q (e ∷ []) file
flush-push_value o (string s) q file = flush-push_string o s q file

log_char :
    (c : ℕ) (s : Text) (vs : List Value) (q : LogQueue)
    → (c == percent) ≡ false
    → log (c ∷ s) vs q ≡ log s vs (q ++ char c ∷ [])
unfolding log
log_char c [] vs q h = rw h
log_char c (d ∷ s) vs q h = rw h

abbrev other_head : Text → Bool
other_head [] = true
other_head (c ∷ s) = not (c == percent)

log_hole :
    (s : Text) (vs : List Value) (q : LogQueue)
    → other_head s ≡ true
    → log (percent ∷ s) vs q ≡ substitute vs (log s) q
unfolding log
log_hole [] vs q h = refl
log_hole (d ∷ s) vs q h = elim (Bool-cases (d == percent)) [
  | inl e ↦ absurd (cc)
  | inr e ↦ rw e refl
]

other_head-print : (t : Template) → starts_plain t ≡ true → other_head (print t) ≡ true
other_head-print [] h = refl
other_head-print (literal c ∷ t) h = ground arith
other_head-print (hole ∷ t) h = absurd (cc)

-- What is in the file goes before the rest of the text.
map_after :
    (f g a : Text) (r : Option Text)
    → g ≡ f ++ a
    → Option.map (λ s. g ++ s) r ≡ Option.map (λ s. f ++ s) (Option.map (λ s. a ++ s) r)
map_after f g a none e = refl
map_after f g a (some s) e = ap some (ap (λ h. h ++ s) e ∙ append_assoc f a s)

log_literal :
    (c : ℕ) (t : Template) (vs : List Value) (q : LogQueue)
    → log (print (literal c ∷ t)) vs q ≡ log (print t) vs (q ++ char c ∷ [])
log_literal c t vs q = elim (Bool-cases (c == percent)) [
  | inl e ↦ rw e (doubled (==→eq c percent e))
  | inr e ↦ rw e (log_char c (print t) vs q e)
]
  where
    doubled :
        c ≡ percent → log (percent ∷ percent ∷ print t) vs q ≡ log (print t) vs (q ++ char c ∷ [])
    doubled e = unfold log in ap (λ d. log (print t) vs (q ++ char d ∷ [])) (sym e)

-- For a template of characters and places for values, where no place stands directly before
-- another one or before a literal percent sign, log with the template's format string, in which a
-- literal percent sign is doubled, ends in FATAL exactly when there is not one value for each
-- place; otherwise what flushQueue writes afterwards is what it would have written before,
-- followed by the template's text with the values in their places.
pub log-print :
    (o : Ostream) (t : Template) (vs : List Value) (q : LogQueue) (file : Text)
    → IsPrintable t
    → Option.map (λ q'. flush_queue o q' file) (log (print t) vs q)
      ≡ Option.map (λ s. flush_queue o q file ++ s) (fill o t vs)
log-print o [] [] q file h = unfold log in ap some (sym (append-nil (flush_queue o q file)))
log-print o [] (v ∷ vs) q file h = unfold log in refl
log-print o (literal c ∷ t) vs q file h =
    ap (Option.map (λ q'. flush_queue o q' file)) (log_literal c t vs q)
    ∙ log-print o t vs (q ++ char c ∷ []) file h
    ∙ map_after (flush_queue o q file) _ (c ∷ []) (fill o t vs)
        (unfold flush_queue write_element in flush-append o q (char c ∷ []) file)
log-print o (hole ∷ t) [] q file h =
    ap (Option.map (λ q'. flush_queue o q' file)) (log_hole (print t) [] q (other_head-print t h.0))
log-print o (hole ∷ t) (v ∷ vs) q file h =
    ap (Option.map (λ q'. flush_queue o q' file))
      (log_hole (print t) (v ∷ vs) q (other_head-print t h.0))
    ∙ log-print o t vs (push_value v q) file h.1
    ∙ map_after (flush_queue o q file) _ (text_of o v) (fill o t vs) (flush-push_value o v q file)
