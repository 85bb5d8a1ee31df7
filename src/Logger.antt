-- ===== src/Logger.antt =====
-- common/logging.h: the logger's format strings and the queue of log elements.
--
-- Text is a list of characters, by number. A C string is the list of the characters before its NUL.
-- The queue to the logging thread stands as the list of its elements, oldest first (RingBuffer is
-- about the queue). How an `ofstream` prints a number is not code of the repository: it is the
-- parameter `Ostream`. A float stands as its bits. `none` is a run that ends in FATAL.
pub mod Format
pub mod Tests
use yquant_system.Base.{ℕ, Option, none, some, List, [], ◌∷◌, ◌++◌, ◌==◌, if◌then◌else◌}
use yquant_system.Base.Int.{ℤ}

abbrev pub Text : Type 0
Text = List ℕ

abbrev pub percent : ℕ
percent = b'%'

pub data LogElement : Type 0 where
  char : ℕ → LogElement
  integer long_integer long_long_integer : ℤ → LogElement
  unsigned_integer unsigned_long_integer unsigned_long_long_integer : ℕ → LogElement
  float double : ℕ → LogElement
  const_string : Text → LogElement

-- An argument of `log`: what is one element, or a string that is written character by character.
pub data Value : Type 0 where
  element : LogElement → Value
  string : Text → Value

abbrev pub LogQueue : Type 0
LogQueue = List LogElement

-- What `<<` writes for a number, of each type.
pub record Ostream : Type 0 where
  pub signed : ℤ → Text
  pub unsigned : ℕ → Text
  pub float : ℕ → Text
  pub double : ℕ → Text

-- The cases of `flushQueue`.
pub write_element : Ostream → LogElement → Text
write_element o (char c) = c ∷ []
write_element o (integer i) = o.signed i
write_element o (long_integer i) = o.signed i
write_element o (long_long_integer i) = o.signed i
write_element o (unsigned_integer n) = o.unsigned n
write_element o (unsigned_long_integer n) = o.unsigned n
write_element o (unsigned_long_long_integer n) = o.unsigned n
write_element o (float b) = o.float b
write_element o (double b) = o.double b
write_element o (const_string s) = s

-- The loop of `flushQueue` until the queue is empty: `file` is what was written before.
pub flush_queue : Ostream → LogQueue → Text → Text
flush_queue o [] file = file
flush_queue o (e ∷ q) file = flush_queue o q (file ++ write_element o e)

abbrev pub push_element : LogElement → LogQueue → LogQueue
push_element e q = q ++ e ∷ []

pub push_string : Text → LogQueue → LogQueue
push_string [] q = q
push_string (c ∷ s) q = push_string s (push_element (char c) q)

pub push_value : Value → LogQueue → LogQueue
push_value (element e) q = push_element e q
push_value (string s) q = push_string s q

-- The value for a `%`, and then the rest of the format.
abbrev pub substitute :
    List Value → (List Value → LogQueue → Option LogQueue) → LogQueue → Option LogQueue
substitute [] rest q = none
substitute (v ∷ vs) rest q = rest vs (push_value v q)

-- `log` with the arguments that are left; `%%` is one `%`.
pub log : Text → List Value → LogQueue → Option LogQueue
log [] [] q = some q
log [] (v ∷ vs) q = none
log (c ∷ []) args q =
    let end = substitute args (log []) q in
    let rest = log [] args (push_element (char c) q) in if c == percent then end else rest
log (c ∷ d ∷ s) args q =
    let escaped = log s args (push_element (char d) q) in
    let replaced = substitute args (log (d ∷ s)) q in
    let rest = log (d ∷ s) args (push_element (char c) q) in
    if c == percent then (if d == percent then escaped else replaced) else rest
