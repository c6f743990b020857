-- ===== src/Wire/Frame/Limit.antt =====
-- The limit that `frameReader` of backend/qemu/internal/qmpwire/session.go keeps.
use virtle.Prelude.{
  ap, sym, ◌∙◌, subst, ℕ, zero, suc, ◌+◌, ◌==◌, ◌≤◌, ◌<◌, ltb, ◌≡◌, ◌≢◌, refl, ◌⊎◌, inl, inr, true,
  false, List, [], ◌∷◌, ◌++◌, Option, none, some, take, arith, if◌then◌else◌, Bool-cases,
}
use virtle.Prelude.Errors.{Error}
use virtle.Wire.Frame.{
  FrameReader, limit_error, scan, over_one, ReadDone, Source, scanned, room, frame_read,
}

-- The size of the current line after a byte, and after several.
abbrev pub after_byte : ℕ → ℕ → ℕ
after_byte size b = if b == 10 then 0 else suc size

abbrev pub line_size : ℕ → List ℕ → ℕ
line_size size [] = size
line_size size (b ∷ bs) = line_size (after_byte size b) bs

-- No line grows over `max` anywhere in the bytes, of which the first continue a line.
abbrev pub IsWithin : ℕ → ℕ → List ℕ → Type 0
IsWithin max size [] = size ≤ max
IsWithin max size (b ∷ bs) = (size ≤ max) × IsWithin max (after_byte size b) bs

-- All bytes but the last are within the limit, and the last makes its line one byte too long.
pub data IsCutOff (max : ℕ) : ℕ → List ℕ → Type 0 where
  at_last : {size b : ℕ} → size ≤ max → after_byte size b ≡ suc max → IsCutOff max size (b ∷ [])
  after :
      {size b : ℕ} {bs : List ℕ}
      → size ≤ max
      → IsCutOff max (after_byte size b) bs
      → IsCutOff max size (b ∷ bs)

-- What a scan says of the bytes.
abbrev ScanSays : ℕ → ℕ → List ℕ → ℕ × Option ℕ → Type 0
ScanSays max size bs (n, none) = IsWithin max size bs × (n ≡ line_size size bs)
ScanSays max size bs (n, some i) = IsCutOff max size (take i bs) × (n ≡ suc max)

later :
    (max size b : ℕ) (bs : List ℕ) (next : ℕ)
    → after_byte size b ≡ next
    → size ≤ max
    → (r : ℕ × Option ℕ) → ScanSays max next bs r
    → ScanSays max size (b ∷ bs) (over_one r)
unfolding over_one
later max size b bs next e l (n, none) (w, q) = rw e ((l, w), q)
later max size b bs next e l (n, some i) (o, q) =
    (after l (subst (λ k. IsCutOff max k (take i bs)) (sym e) o), q)

byte : (size b : ℕ) → b == 10 ≡ false → after_byte size b ≡ suc size
byte size b e = rw e refl

newline : (size b : ℕ) → b == 10 ≡ true → after_byte size b ≡ 0
newline size b e = rw e refl

scan_lem : (max size : ℕ) (bs : List ℕ) → size ≤ max → ScanSays max size bs (scan max size bs)
unfolding scan
scan_lem max size [] l = (l, refl)
scan_lem max size (b ∷ bs) l = elim (Bool-cases (b == 10)) [
  | inl e ↦
      rw e (
        later max size b bs 0 (newline size b e) l (scan max 0 bs)
          (scan_lem max 0 bs (omega arith)))
  | inr e ↦ elim (Bool-cases (ltb max (suc size))) [
    | inl f ↦
        let reached : suc size ≡ suc max = ground arith in
        rw e (rw f (at_last l (byte size b e ∙ reached), reached))
    | inr f ↦ rw e (
        rw f (
          later max size b bs (suc size) (byte size b e) l (scan max (suc size) bs)
            (scan_lem max (suc size) bs (ground arith))))
  ]
]

-- What a Read of a reader within its limit does: it hands on bytes within the limit and keeps count of
-- the line, or hands on bytes up to the first that is over it and fails with the limit's error; and
-- what it asks for is at most one byte more than the line has room for.
abbrev pub ReadSays : FrameReader → ReadDone → Type 0
ReadSays r d =
    ((IsWithin r.max r.size d.bytes × (d.reader.size ≡ line_size r.size d.bytes))
      ⊎ (IsCutOff r.max r.size d.bytes
          × (d.error ≡ some (limit_error r.max))
          × (d.reader.size ≡ suc r.max)))
    × (d.reader.max ≡ r.max)
    × ((n : ℕ) → d.asked ≡ some n → n + r.size ≤ suc r.max)

room_lem :
    (r : FrameReader) (len n : ℕ)
    → r.size ≤ r.max
    → some (room r len) ≡ some n
    → n + r.size ≤ suc r.max
unfolding room
room_lem r len n l e = ground arith

scanned_lem :
    (r : FrameReader) (len : ℕ) (bytes : List ℕ) (e : Option Error) (o : ℕ × Option ℕ)
    → r.size ≤ r.max
    → ScanSays r.max r.size bytes o
    → ReadSays r (scanned r (room r len) bytes e o)
unfolding scanned
scanned_lem r len bytes e (n, none) l (w, q) = (inl (w, q), refl, λ k h. room_lem r len k l h)
scanned_lem r len bytes e (n, some i) l (w, q) =
    (inr (w, refl, q), refl, λ k h. room_lem r len k l h)

-- A Read of a reader whose line is within the limit hands on bytes that stay within it and keeps
-- count of the line, or hands on bytes up to the first that is over the limit and fails with the
-- limit's error; it asks for at most one byte more than the line has room for.
frame_read_lem :
    (r : FrameReader) (source : Source) (len : ℕ)
    → r.size ≤ r.max
    → ReadSays r (frame_read r source len)
unfolding frame_read
frame_read_lem r source zero l = (inl (l, refl), refl, λ k h. absurd (ground arith))
frame_read_lem r source (suc len) l = rw (not_over r l) (
    scanned_lem r (suc len) (source (room r (suc len))).0 (source (room r (suc len))).1
      (scan r.max r.size (source (room r (suc len))).0) l
      (scan_lem r.max r.size (source (room r (suc len))).0 l))
  where
    not_over : (r : FrameReader) → r.size ≤ r.max → ltb r.max r.size ≡ false
    not_over r l = ground arith

-- A reader that refused a line refuses every further read and asks for nothing.
pub frame_read_refused :
    (r : FrameReader) (source : Source) (len : ℕ)
    → r.max < r.size
    → ((frame_read r source (suc len)).error ≡ some (limit_error r.max))
      × ((frame_read r source (suc len)).asked ≡ none)
      × ((frame_read r source (suc len)).reader ≡ r)
unfolding frame_read
frame_read_refused r source len l = rw (over r l) (refl, refl, refl)
  where
    over : (r : FrameReader) → r.max < r.size → ltb r.max r.size ≡ true
    over r l = ground arith

-- Reads one after another from a new reader, none of which refused, and the bytes they handed on.
pub data Reads (max : ℕ) : List ℕ → FrameReader → Type 0 where
  new : Reads max [] record { max = max; size = 0 }
  read :
      {bytes : List ℕ} {r : FrameReader} (source : Source) (len : ℕ)
      → Reads max bytes r
      → (frame_read r source len).error ≢ some (limit_error max)
      → Reads max (bytes ++ (frame_read r source len).bytes) (frame_read r source len).reader

IsWithin-append :
    (max size : ℕ) (xs ys : List ℕ)
    → IsWithin max size xs
    → IsWithin max (line_size size xs) ys
    → IsWithin max size (xs ++ ys)
IsWithin-append max size [] ys h k = k
IsWithin-append max size (x ∷ xs) ys (l, h) k =
    (l, IsWithin-append max (after_byte size x) xs ys h k)

line_size-append :
    (size : ℕ) (xs ys : List ℕ) → line_size size (xs ++ ys) ≡ line_size (line_size size xs) ys
line_size-append size [] ys = refl
line_size-append size (x ∷ xs) ys = line_size-append (after_byte size x) xs ys

IsWithin-end : (max size : ℕ) (xs : List ℕ) → IsWithin max size xs → line_size size xs ≤ max
IsWithin-end max size [] l = l
IsWithin-end max size (x ∷ xs) (l, h) = IsWithin-end max (after_byte size x) xs h

extend :
    (max : ℕ) (bytes : List ℕ) (r : FrameReader) (d : ReadDone)
    → IsWithin max 0 bytes
    → r.size ≡ line_size 0 bytes
    → r.max ≡ max
    → ReadSays r d
    → d.error ≢ some (limit_error max)
    → IsWithin max 0 (bytes ++ d.bytes)
      × (d.reader.size ≡ line_size 0 (bytes ++ d.bytes))
      × (d.reader.max ≡ max)
extend max bytes r d w s m (inr (c, e, q), k, asks) n =
    absurd (n (e ∙ ap (λ x. some (limit_error x)) m))
extend max bytes r d w s m (inl (u, q), k, asks) n = (
  IsWithin-append max 0 bytes d.bytes w (
      subst (λ x. IsWithin x (line_size 0 bytes) d.bytes) m
        (subst (λ x. IsWithin r.max x d.bytes) s u)),
  q ∙ ap (λ x. line_size x d.bytes) s ∙ sym (line_size-append 0 bytes d.bytes),
  k ∙ m,
)

-- In whatever pieces the bytes come, all that a new reader handed on in reads that did not refuse
-- has no line over the limit, and the reader knows the size of the line that it is in.
Reads-IsWithin :
    {max : ℕ} {bytes : List ℕ} {r : FrameReader}
    → Reads max bytes r
    → IsWithin max 0 bytes × (r.size ≡ line_size 0 bytes) × (r.max ≡ max)
Reads-IsWithin {max} new = (omega arith, refl, refl)
Reads-IsWithin {max} (read {bytes} {r} source len reads ok) =
    let v = Reads-IsWithin reads in
    let size_ok = subst (λ k. k ≤ max) (sym v.1) (IsWithin-end max 0 bytes v.0) in
    extend max bytes r (frame_read r source len) v.0 v.1 v.2
      (frame_read_lem r source len (subst (λ k. r.size ≤ k) (sym v.2) size_ok)) ok
