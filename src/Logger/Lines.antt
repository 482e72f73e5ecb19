-- ===== src/Logger/Lines.antt =====
-- The text of a line of the log (server/src/ya_logger.c, ya_logger_log).
use mathlib.Core.List.{append-nil}
use mouse_hero.Base.{
  ◌+◌, ◌-◌, ◌<◌, ◌≤◌, ◌≡◌, sym, ap, ◌∙◌, true, Option, none, some, [], ◌∷◌, ◌++◌, length, take, leb,
  length-append, length-take, take_all, if◌then◌else◌, arith,
}
use mouse_hero.Logger.{
  Level, trace, debug, info, warn, error, fatal, off, ya_logger_level_name, max_final_message_size,
  print, bracketed, print_place, cut_message, format_line, Entry,
}
use mouse_hero.Wire.{Bytes}

-- The place with its brackets, if there is one.
abbrev pub place_text : Option Bytes → Bytes
place_text none = []
place_text (some place) = bracketed place

-- What a call writes.
abbrev pub line_of : Entry → Bytes
line_of e =
    ((bracketed e.timestamp ++ bracketed (ya_logger_level_name e.level)) ++ place_text e.place)
    ++ (cut_message e.message ++ (b'\n' ∷ []))

-- strftime writes into 32 bytes, and the place leaves room for the message.
pub record IsShort (e : Entry) : Type 0 where
  pub timestamp : length e.timestamp < 32
  pub place : length (place_text e.place) ≤ 8000

level_name-length : (l : Level) → length (ya_logger_level_name l) ≤ 5
level_name-length trace = omega arith
level_name-length debug = omega arith
level_name-length info = omega arith
level_name-length warn = omega arith
level_name-length error = omega arith
level_name-length fatal = omega arith
level_name-length off = omega arith

print_fits :
    (s text : Bytes)
    → length text + length s < 16384
    → print s (some (length text, text)) ≡ some (length (text ++ s), text ++ s)
print_fits s text h =
    let room : leb (length text) max_final_message_size ≡ true = ground (arith, h) in
    ap
      (λ b.
        if b
        then some
            (length text + length s, text ++ take (max_final_message_size - length text - 1) s)
        else none)
      room
    ∙ (ap (λ n. some (n, text ++ take (max_final_message_size - length text - 1) s))
          (sym (length-append text s))
        ∙ ap (λ t. some (length (text ++ s), text ++ t))
            (take_all (max_final_message_size - length text - 1) s (omega (arith, h))))

bracketed-length : (s : Bytes) → length (bracketed s) ≡ length s + 3
bracketed-length s = omega (arith, length-append s (b']' ∷ b' ' ∷ []))

print_place_fits :
    (place : Option Bytes) (text : Bytes)
    → length text + length (place_text place) < 16384
    → print_place place (some (length text, text))
      ≡ some (length (text ++ place_text place), text ++ place_text place)
print_place_fits none text h = ap (λ t. some (length t, t)) (sym (append-nil text))
print_place_fits (some place) text h = print_fits (bracketed place) text h

-- The line of an entry with a short time and a short place has room in `final_message`, with its newline:
-- nothing of it is cut but the message, behind 8191 bytes, and no call of snprintf is undefined.
pub format_line_fits :
    (e : Entry)
    → IsShort e
    → format_line e.timestamp e.level e.place e.message ≡ some (length (line_of e), line_of e)
unfolding format_line
format_line_fits e short =
    let head = bracketed e.timestamp in
    let name = bracketed (ya_logger_level_name e.level) in
    let rest = cut_message e.message ++ (b'\n' ∷ []) in
    let h1 : length head ≤ 34 = omega (arith, bracketed-length e.timestamp, short.timestamp) in
    let h2 : length (head ++ name) ≤ 42 = omega (
      arith,
      h1,
      length-append head name,
      bracketed-length (ya_logger_level_name e.level),
      level_name-length e.level,
    ) in
    let h3 : length ((head ++ name) ++ place_text e.place) ≤ 8042 =
      omega (arith, h2, short.place, length-append (head ++ name) (place_text e.place)) in
    let h4 : length rest ≤ 8192 =
      omega
        (arith, length-append (cut_message e.message) (b'\n' ∷ []), length-take 8191 e.message) in
    ap (λ p. print rest (print_place e.place (print name p)))
      (print_fits head [] (omega (arith, h1)))
    ∙ (ap (λ p. print rest (print_place e.place p))
          (print_fits name head (omega (arith, h2, length-append head name)))
        ∙ (ap (λ p. print rest p)
              (print_place_fits e.place (head ++ name) (omega (arith, h2, short.place)))
            ∙ print_fits rest ((head ++ name) ++ place_text e.place) (omega (arith, h3, h4))))
