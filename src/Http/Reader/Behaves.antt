-- ===== src/Http/Reader/Behaves.antt =====
-- What holds of the result of a chain of reads, where it blocks only if the connection never closes.
use go_network_lab.Base.{
  ℕ, ◌+◌, ◌≡◌, Bool, true, false, ◌++◌, Bytes, length, refl, Outcome, ok, err, panic, stuck, ◌>>=◌,
  ◌>>◌, fail_if, wrap_err,
}
use go_network_lab.Base.Io.{IoError}
use go_network_lab.Http.Reader.{HttpError, Reader, crlf, chunk_size_read}
use go_network_lab.Http.Reader.Meaning.{arriving}
use go_network_lab.Http.Reader.Progress.{Live, Uses, ReadsBytes}
use go_network_lab.Http.Reader.Lines.{ReadsLine}

-- What holds of a result, and of the reader where the call blocks.
abbrev pub Behaves : {E A : Type 0} → Reader → (A → Type 0) → Outcome E A → Type 0
Behaves r P (ok a) = P a
Behaves r P (err e) = Unit
Behaves r P panic = Unit
Behaves r P stuck = Live r → ⊥

module _ {A : Type 0} (r : Reader) where
  pub Behaves-fail_if :
      (P : A → Type 0) (b : Bool) (e : HttpError) (m : Outcome HttpError A)
      → (b ≡ false → Behaves r P m)
      → Behaves r P (fail_if b e >> m)
  Behaves-fail_if P true e m h = tt
  Behaves-fail_if P false e m h = h refl

  -- What is read next, behind what has been used.
  pub Behaves-later :
      (r' : Reader) (P : A → Type 0) (m : Outcome HttpError A)
      → (Live r → Live r')
      → Behaves r' P m
      → Behaves r P m
  Behaves-later r' P (ok a) live h = h
  Behaves-later r' P (err e) live h = tt
  Behaves-later r' P panic live h = tt
  Behaves-later r' P stuck live h = λ l. h (live l)

  pub Behaves-bytes :
      (size : ℕ) (P : A → Type 0) (m : Outcome HttpError (Bytes × Reader))
      (k : Bytes × Reader → Outcome HttpError A)
      → ReadsBytes r size m
      → ((bytes : Bytes) (r' : Reader)
          → length bytes ≡ size
          → bytes ++ arriving r' ≡ arriving r
          → Uses r size r'
          → Behaves r P (k (bytes, r')))
      → Behaves r P (m >>= k)
  Behaves-bytes size P (ok (bytes, r')) k (n, w, u) h = h bytes r' n w u
  Behaves-bytes size P (err e) k t h = tt
  Behaves-bytes size P panic k t h = tt
  Behaves-bytes size P stuck k t h = t

  pub Behaves-line :
      (P : A → Type 0) (m : Outcome IoError (Bytes × Reader))
      (k : Bytes × Reader → Outcome HttpError A)
      → ReadsLine r m
      → ((line : Bytes) (r' : Reader)
          → line ++ (crlf ++ arriving r') ≡ arriving r
          → Uses r (length line + 2) r'
          → Behaves r P (k (line, r')))
      → Behaves r P (wrap_err chunk_size_read m >>= k)
  Behaves-line P (ok (line, r')) k (w, u) h = h line r' w u
  Behaves-line P (err e) k t h = tt
  Behaves-line P panic k t h = absurd t
  Behaves-line P stuck k t h = t

pub Behaves-bind :
    {A B : Type 0} (r : Reader) (P : A → Type 0) (Q : B → Type 0) (m : Outcome HttpError A)
    (k : A → Outcome HttpError B)
    → Behaves r P m
    → ((a : A) → P a → Behaves r Q (k a))
    → Behaves r Q (m >>= k)
Behaves-bind r P Q (ok a) k h f = f a h
Behaves-bind r P Q (err e) k h f = tt
Behaves-bind r P Q panic k h f = tt
Behaves-bind r P Q stuck k h f = h

pub Behaves-map :
    {A : Type 0} (r : Reader) (P Q : A → Type 0) (m : Outcome HttpError A)
    → ((a : A) → P a → Q a)
    → Behaves r P m
    → Behaves r Q m
Behaves-map r P Q (ok a) f h = f a h
Behaves-map r P Q (err e) f h = tt
Behaves-map r P Q panic f h = tt
Behaves-map r P Q stuck f h = h

-- A computation that returns, or panics.
abbrev pub Settles : {A : Type 0} → Outcome HttpError A → Type 0
Settles (ok a) = Unit
Settles (err e) = Unit
Settles panic = Unit
Settles stuck = ⊥

pub Settles-bind :
    {A B : Type 0} (m : Outcome HttpError A) (k : A → Outcome HttpError B)
    → Settles m
    → ((a : A) → Settles (k a))
    → Settles (m >>= k)
Settles-bind (ok a) k h f = f a
Settles-bind (err e) k h f = tt
Settles-bind panic k h f = tt
Settles-bind stuck k h f = absurd h

pub Settles-fail_if :
    {A : Type 0} (b : Bool) (e : HttpError) (m : Outcome HttpError A)
    → Settles m
    → Settles (fail_if b e >> m)
Settles-fail_if true e m h = tt
Settles-fail_if false e m h = h

-- What follows it is all that matters.
pub Behaves-settled :
    {A B : Type 0} (r : Reader) (P : B → Type 0) (m : Outcome HttpError A)
    (k : A → Outcome HttpError B)
    → Settles m
    → ((a : A) → Behaves r P (k a))
    → Behaves r P (m >>= k)
Behaves-settled r P (ok a) k h f = f a
Behaves-settled r P (err e) k h f = tt
Behaves-settled r P panic k h f = tt
Behaves-settled r P stuck k h f = absurd h
