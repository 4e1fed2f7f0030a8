-- ===== src/Stdio.antt =====
-- The part of C's standard input that phat.c uses: an open file is its bytes and a position.
use phat.Base.{
  ℕ, ◌+◌, ◌≡◌, Option, none, some, List, [], ◌∷◌, ◌++◌, length, take, drop, sym, ap, ◌∙◌, drop-drop,
  drop-append, take-append,
}

pub record File : Type 0 where
  pub bytes : List ℕ
  pub pos : ℕ

-- What is still to be read.
abbrev pub rest : File → List ℕ
rest f = drop f.pos f.bytes

-- fseek(f, n, SEEK_CUR): a position behind the end is accepted.
abbrev pub advance : ℕ → File → File
advance n f = record f { pos = f.pos + n }

-- fseek(f, n, SEEK_SET)
abbrev pub seek_to : ℕ → File → File
seek_to n f = record f { pos = n }

-- fread(sb, 1, n, f): the bytes read, `n` of them or all that are left.
unfoldable pub fread : ℕ → File → List ℕ × File
fread n f = (take n (rest f), advance (length (take n (rest f))) f)

abbrev pub first_byte : List ℕ → File → Option ℕ × File
first_byte [] f = (none, f)
first_byte (b ∷ bs) f = (some b, advance 1 f)

-- getc(f): `none` is EOF.
unfoldable pub getc : File → Option ℕ × File
getc f = first_byte (rest f) f

-- `f` stands before the bytes `xs`, and nothing follows them but the end of the file.
abbrev pub Rest : File → List ℕ → Type 0
Rest f xs = rest f ≡ xs

pub Rest-advance : (f : File) (xs ys : List ℕ) → Rest f (xs ++ ys) → Rest (advance (length xs) f) ys
Rest-advance f xs ys h =
    sym (drop-drop f.pos (length xs) f.bytes) ∙ ap (drop (length xs)) h ∙ drop-append xs ys

pub fread-Rest :
    (f : File) (xs ys : List ℕ)
    → Rest f (xs ++ ys)
    → fread (length xs) f ≡ (xs, advance (length xs) f)
unfolding fread
fread-Rest f xs ys h = rw (h, take-append)

pub getc-Rest : (f : File) (x : ℕ) (xs : List ℕ) → Rest f (x ∷ xs) → getc f ≡ (some x, advance 1 f)
unfolding getc
getc-Rest f x xs h = rw h

pub getc-eof : (f : File) → Rest f [] → getc f ≡ (none, f)
unfolding getc
getc-eof f h = rw h
