-- ===== src/Ffmpeg/Process/Pipes.antt =====
-- The descriptors of one pipe of an FFmpeg process.
use hik_hcnet_http_bridge.Common.{
  ℕ, ◌+◌, ◌≡◌, refl, ap, ◌∙◌, List, [], ◌∷◌, ◌++◌, Option, none, some, ◌==◌, count_if,
  count_if-append, arith,
}
use hik_hcnet_http_bridge.Effect.Ensures.{
  Ensures, Ensures-pure, Ensures-modify, Ensures-bind, Ensures-unless, Ensures-decided,
}
use hik_hcnet_http_bridge.Ffmpeg.Process.{
  Pipe, Desk, no_pipe, PipeAnswers, make_pipe, raise, put_read, put_write, open_pipe, ends_of,
}

abbrev pub times : ℕ → List ℕ → ℕ
times n fds = count_if (λ m. m == n) fds

abbrev pub at_end : ℕ → Option ℕ → ℕ
at_end n fd = times n (ends_of fd)

pub times-append : (n : ℕ) (xs ys : List ℕ) → times n (xs ++ ys) ≡ times n xs + times n ys
times-append n xs ys = count_if-append (λ m. m == n) xs ys

-- What was opened was closed or is at an end of the pipe, besides what is elsewhere.
abbrev pub Books : (ℕ → ℕ) → Desk → Type 0
Books elsewhere d =
    (n : ℕ)
    → times n d.opened
      ≡ times n d.closed + at_end n d.pipe.read + at_end n d.pipe.write + elsewhere n

pub record Empty (elsewhere : ℕ → ℕ) (d : Desk) : Type 0 where
  pub books : Books elsewhere d
  pub empty : d.pipe ≡ no_pipe

pub record Full (elsewhere : ℕ → ℕ) (r w : ℕ) (d : Desk) : Type 0 where
  books : Books elsewhere d
  full : d.pipe ≡ record { read = some r; write = some w }

module _ (elsewhere : ℕ → ℕ) where
  made :
      (r w : ℕ) (d : Desk)
      → Empty elsewhere d
      → Full elsewhere r w (record d {
        opened = d.opened ++ r ∷ w ∷ [];
        pipe = record { read = some r; write = some w };
      })
  made r w d h = record {
    books = λ n.
        let before : times n d.opened ≡ times n d.closed + elsewhere n =
          h.books n
          ∙ ap (λ (p : Pipe). times n d.closed + at_end n p.read + at_end n p.write + elsewhere n)
              h.empty
          ∙ omega arith in
        omega (arith, times-append n d.opened (r ∷ w ∷ []), before);
    full = refl;
  }

  make_pipe-Full :
      (a : Option (ℕ × ℕ))
      → Ensures
          (Empty elsewhere)
          (make_pipe a)
          (λ ends. Full elsewhere ends.0 ends.1)
          (λ e. Books elsewhere)
  unfolding make_pipe
  make_pipe-Full none = Ensures-decided _ (λ ends e d h. cc) (λ e d h. h.books)
  make_pipe-Full (some (r, w)) =
      Ensures-bind (λ _. Full elsewhere r w) _ _ (Ensures-modify _ (λ d h. made r w d h))
        λ _. Ensures-pure (r, w) (λ d h. h)

  raised :
      (r w k : ℕ) (d : Desk)
      → Full elsewhere r w d
      → Full elsewhere k w (record d {
        opened = d.opened ++ k ∷ [];
        closed = d.closed ++ r ∷ [];
        pipe = put_read k d.pipe;
      })
  raised r w k d h = record {
    books = λ n.
        let before : times n d.opened
            ≡ times n d.closed + times n (r ∷ []) + times n (w ∷ []) + elsewhere n =
          h.books n
          ∙ ap (λ (p : Pipe). times n d.closed + at_end n p.read + at_end n p.write + elsewhere n)
              h.full in
        let ends : at_end n d.pipe.write ≡ times n (w ∷ []) =
          ap (λ (p : Pipe). at_end n p.write) h.full in
        omega
          (arith, times-append n d.opened (k ∷ []), times-append n d.closed (r ∷ []), before, ends);
    full = ap (put_read k) h.full;
  }

  raised_too :
      (r w k : ℕ) (d : Desk)
      → Full elsewhere r w d
      → Full elsewhere r k (record d {
        opened = d.opened ++ k ∷ [];
        closed = d.closed ++ w ∷ [];
        pipe = put_write k d.pipe;
      })
  raised_too r w k d h = record {
    books = λ n.
        let before : times n d.opened
            ≡ times n d.closed + times n (r ∷ []) + times n (w ∷ []) + elsewhere n =
          h.books n
          ∙ ap (λ (p : Pipe). times n d.closed + at_end n p.read + at_end n p.write + elsewhere n)
              h.full in
        let ends : at_end n d.pipe.read ≡ times n (r ∷ []) =
          ap (λ (p : Pipe). at_end n p.read) h.full in
        omega
          (arith, times-append n d.opened (k ∷ []), times-append n d.closed (w ∷ []), before, ends);
    full = ap (put_write k) h.full;
  }

  raise_read :
      (r w : ℕ) (a : Option ℕ)
      → Ensures
          (Full elsewhere r w)
          (raise put_read r a)
          (λ _ d. (k : ℕ) × Full elsewhere k w d)
          (λ e. Books elsewhere)
  unfolding raise
  raise_read r w none = Ensures-decided _ (λ u e d h. cc) (λ e d h. h.books)
  raise_read r w (some k) = Ensures-modify _ (λ d h. (k, raised r w k d h))

  raise_write :
      (r w : ℕ) (a : Option ℕ)
      → Ensures
          (Full elsewhere r w)
          (raise put_write w a)
          (λ _. Books elsewhere)
          (λ e. Books elsewhere)
  unfolding raise
  raise_write r w none = Ensures-decided _ (λ u e d h. cc) (λ e d h. h.books)
  raise_write r w (some k) = Ensures-modify _ (λ d h. (raised_too r w k d h).books)

  pub open_pipe-Books :
      (a : PipeAnswers)
      → Ensures (Empty elsewhere) (open_pipe a) (λ _. Books elsewhere) (λ e. Books elsewhere)
  unfolding open_pipe
  open_pipe-Books a =
      Ensures-bind (λ ends. Full elsewhere ends.0 ends.1) _ _ (make_pipe-Full a.made)
        λ ends.
          Ensures-bind (λ _ d. (k : ℕ) × Full elsewhere k ends.1 d) _ _
            (Ensures-unless _ _ (λ e d h. (ends.0, h))
              (λ e. raise_read ends.0 ends.1 a.raised_read))
            λ _. record {
              at = λ d h.
                  (Ensures-unless _ _ (λ e d' h'. h'.books)
                      (λ e. raise_write h.0 ends.1 a.raised_write)).at
                    d h.1;
            }
