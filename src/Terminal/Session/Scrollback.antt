-- ===== src/Terminal/Session/Scrollback.antt =====
-- What `readLoop` keeps of the output of a terminal.
use lumio_os.Prelude.{
  ℕ, ◌+◌, ◌-◌, ◌≤◌, ◌≡◌, refl, ap, ◌∙◌, List, [], ◌∷◌, ◌++◌, Bool-cases, inl, inr, ltb, arith,
}
use lumio_os.Prelude.Lists.{
  length, drop, length-append, length-drop, drop-drop_append, append_assoc, append-nil,
}
use lumio_os.Terminal.Session.{Session, max_scrollback, keep_last, read_chunk, read_all}

-- All chunks, one after the other.
abbrev pub output : List (List ℕ) → List ℕ
output [] = []
output (chunk ∷ chunks) = chunk ++ output chunks

-- The last bytes, if there are as many, by `drop` alone.
keep_last-drop : (n : ℕ) (xs : List ℕ) → keep_last n xs ≡ drop (length xs - n) xs
keep_last-drop n xs = elim (Bool-cases (ltb n (length xs))) [
  | inl e ↦ rw e refl
  | inr e ↦ let none_left : length xs - n ≡ 0 = ground arith in rw (e, none_left) refl
]

pub length-keep_last : (n : ℕ) (xs : List ℕ) → length (keep_last n xs) ≤ n
length-keep_last n xs = rw (keep_last-drop n xs, length-drop (length xs - n) xs) (omega arith)

-- The last bytes of a text, by `drop` alone.
abbrev pub tail_of : ℕ → List ℕ → List ℕ
tail_of n xs = drop (length xs - n) xs

-- Trimming in between does not matter.
tail_of-append : (n : ℕ) (xs ys : List ℕ) → tail_of n (tail_of n xs ++ ys) ≡ tail_of n (xs ++ ys)
tail_of-append n xs ys =
    let k = length xs - n in
    let short : k ≤ length xs = omega arith in
    drop-drop_append (length (drop k xs ++ ys) - n) k xs ys short
    ∙ ap (λ m. drop m (xs ++ ys)) (count k refl)
  where
    count : (k : ℕ) → k ≡ length xs - n → k + (length (drop k xs ++ ys) - n) ≡ length (xs ++ ys) - n
    count k e =
        rw (length-append (drop k xs) ys, length-drop k xs, length-append xs ys) (omega (arith, e))

scrollback-read_all :
    (chunks : List (List ℕ)) (s : Session)
    → length s.scrollback ≤ max_scrollback
    → (read_all chunks s).scrollback ≡ tail_of max_scrollback (s.scrollback ++ output chunks)
unfolding read_all
scrollback-read_all [] s h = rw (append-nil s.scrollback) (
    let none_left : 0 ≡ length s.scrollback - max_scrollback = omega arith in
    ap (λ n. drop n s.scrollback) none_left)
scrollback-read_all (chunk ∷ chunks) s h =
    let kept = keep_last-drop max_scrollback (s.scrollback ++ chunk) in
    scrollback-read_all chunks (read_chunk chunk s)
      (length-keep_last max_scrollback (s.scrollback ++ chunk))
    ∙ ap (λ xs. tail_of max_scrollback (xs ++ output chunks)) kept
    ∙ tail_of-append max_scrollback (s.scrollback ++ chunk) (output chunks)
    ∙ ap (tail_of max_scrollback) (append_assoc s.scrollback chunk (output chunks))

-- After any reads, the scrollback is the end of all output, of 64 KiB at most: of what it held
-- before, up to 64 KiB, and of all chunks in order, it drops exactly what is too old.
pub scrollback_tail :
    (chunks : List (List ℕ)) (s : Session)
    → length s.scrollback ≤ max_scrollback
    → ((read_all chunks s).scrollback
        ≡ drop
            (length (s.scrollback ++ output chunks) - max_scrollback)
            (s.scrollback ++ output chunks))
      × (length (read_all chunks s).scrollback ≤ max_scrollback)
scrollback_tail chunks s h =
    let same = scrollback-read_all chunks s h in
    (
      same,
      rw
          (
            same,
            length-drop (length (s.scrollback ++ output chunks) - max_scrollback)
                (s.scrollback ++ output chunks),
          )
          (omega arith),
    )
