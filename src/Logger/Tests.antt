-- ===== src/Logger/Tests.antt =====
-- Formats and the text that comes of them.
use yquant_system.Base.{◌+◌, ◌≡◌, none, some, List, [], ◌∷◌, ◌++◌, refl}
use mathlib.Core.Option
use yquant_system.Logger.{
  char, unsigned_integer, Value, element, string, Ostream, flush_queue, log, push_value,
  push_string, write_element,
}
use yquant_system.Logger.Format.{Template, literal, hole, print, fill, log-print}

-- A stream that prints one digit.
abbrev digit : Ostream
digit = record {
  signed = λ _. b'?' ∷ [];
  unsigned = λ n. (b'0' + n) ∷ [];
  float = λ _. b'?' ∷ [];
  double = λ _. b'?' ∷ [];
}

-- `px=%% %`
abbrev price : Template
price = literal b'p' ∷ literal b'=' ∷ literal b'%' ∷ literal b' ' ∷ hole ∷ []

abbrev seven : List Value
seven = element (unsigned_integer 7) ∷ []

log_once :
    Option.map (λ q. flush_queue digit q []) (log (print price) seven [])
    ≡ some (b'p' ∷ b'=' ∷ b'%' ∷ b' ' ∷ b'7' ∷ [])
unfolding log flush_queue push_value write_element
log_once = refl

log_extra : log (print price) (string [] ∷ seven) [] ≡ none
unfolding log push_value push_string
log_extra = refl

log-print_example :
    Option.map (λ q. flush_queue digit q []) (log (print price) seven (char b'>' ∷ []))
    ≡ Option.map (λ s. flush_queue digit (char b'>' ∷ []) [] ++ s) (fill digit price seven)
log-print_example = log-print digit price seven (char b'>' ∷ []) [] (refl, tt)
