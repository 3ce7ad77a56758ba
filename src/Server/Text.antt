-- ===== src/Server/Text.antt =====
-- The texts that server/main.c puts together in buffers: the line of log_event, the directory of the
-- program in `main`, and the path in load_library. A text is the list of its bytes, without the
-- NUL at its end.
use linux_veda_4sensor_tcp_c.Prelude.{
  ℕ, ◌-◌, ◌==◌, leb, if◌then◌else◌, Option, none, some, List, [], ◌∷◌, ◌++◌, length, take,
}

-- `snprintf`: what it leaves in a buffer of `size` bytes; its result is the length of the whole text.
abbrev pub snprintf : ℕ → List ℕ → List ℕ
snprintf size text = take (size - 1) text

-- "[%s] %s\n"
abbrev pub log_text : List ℕ → List ℕ → List ℕ
log_text timebuf msg = b'[' ∷ timebuf ++ b']' ∷ b' ' ∷ msg ++ b'\n' ∷ []

-- What `write` is given of the line: its first `len` bytes.
unfoldable pub log_line : List ℕ → List ℕ → List ℕ
log_line timebuf msg =
    let text = log_text timebuf msg in
    let line = snprintf 256 text in
    let len = if leb 256 (length text) then 256 - 1 else length text in take len line

-- `strrchr` for a slash, and the text that the NUL written there ends.
unfoldable pub before_slash : List ℕ → Option (List ℕ)
before_slash [] = none
before_slash (b ∷ bs) = elim (before_slash bs) [
  | some front ↦ some (b ∷ front)
  | none ↦ if b == b'/' then some [] else none
]

-- `link` is what /proc/self/exe points to; `readlink` cuts it off at 511 bytes.
unfoldable pub base_dir : List ℕ → List ℕ
unfolding before_slash
base_dir link = elim (before_slash (take 511 link)) [
  | some dir ↦ snprintf 512 dir
  | none ↦ snprintf 512 (b'.' ∷ [])
]

-- "%s/lib/%s.so"
abbrev pub library_text : List ℕ → List ℕ → List ℕ
library_text base name = base ++ b'/' ∷ b'l' ∷ b'i' ∷ b'b' ∷ b'/' ∷ name ++ b'.' ∷ b's' ∷ b'o' ∷ []

-- The path that `dlopen` is given; `none` is the exit of the process.
unfoldable pub library_path : List ℕ → List ℕ → Option (List ℕ)
library_path base name =
    let text = library_text base name in
    if leb 512 (length text) then none else some (snprintf 512 text)
