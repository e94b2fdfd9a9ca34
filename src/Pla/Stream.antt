-- ===== src/Pla/Stream.antt =====
-- The parts of `std::stringstream` that source/io/read_pla.hpp uses: `peek`, `std::getline` and `>>`
-- on an unsigned number.
use losys.Base.{
  ℕ, zero, suc, Bool, true, false, not, ◌&&◌, ◌==◌, if◌then◌else◌, Option, none, some, List, [],
  ◌∷◌,
}

-- The bytes not read yet, and the two error bits of the stream.
pub record Stream : Type 0 where
  pub rest : List ℕ
  pub eof : Bool
  pub fail : Bool

unfoldable pub good : Stream → Bool
good s = not s.eof && not s.fail

-- The stream after `buffer << in_file.rdbuf()`, which fails when there is nothing to insert.
unfoldable pub filled : List ℕ → Stream
filled [] = record { rest = []; eof = false; fail = true }
filled (c ∷ text) = record { rest = c ∷ text; eof = false; fail = false }

unfoldable pub is_end : List ℕ → Bool
is_end [] = true
is_end (c ∷ text) = false

-- The next byte, or `none` for EOF.
unfoldable pub peek_at : Stream → List ℕ → Option ℕ × Stream
peek_at s [] = (none, record s { eof = true })
peek_at s (c ∷ text) = (some c, s)

unfoldable pub peek : Stream → Option ℕ × Stream
unfolding good peek_at
peek s = if good s then peek_at s s.rest else (none, record s { fail = true })

-- The text before the first `delim`, and the text behind it when there is one.
unfoldable pub split_at : ℕ → List ℕ → List ℕ × Option (List ℕ)
split_at delim [] = ([], none)
split_at delim (c ∷ text) =
    let (line, rest) = split_at delim text in
    if c == delim then ([], some text) else (c ∷ line, rest)

-- The line read and the stream behind it, from the two parts of the text.
unfoldable pub end_line : List ℕ × Option (List ℕ) → List ℕ × Stream
unfolding is_end
end_line (line, none) = (line, record { rest = []; eof = true; fail = is_end line })
end_line (line, some text) = (line, record { rest = text; eof = false; fail = false })

-- `std::getline(stream, line, delim)`: a stream that is not good keeps the line as it is.
unfoldable pub getline : ℕ → Stream → List ℕ → List ℕ × Stream
unfolding good split_at end_line
getline delim s line =
    if good s then end_line (split_at delim s.rest) else (line, record s { fail = true })

-- `line[i]`; behind the last byte stands the terminator.
unfoldable pub char_at : List ℕ → ℕ → ℕ
char_at [] i = 0
char_at (c ∷ line) zero = c
char_at (c ∷ line) (suc i) = char_at line i
