-- ===== src/Station/Spool/Torn.antt =====
-- What a write that is cut short does to the queue (apps/trace-station/src/spool.rs).
use traceability.Base.{
  ℕ, ◌≤◌, true, false, List, [], ◌∷◌, ◌++◌, Option, none, some, ok, err, ◌≡◌, refl, sym, ap, ◌∙◌,
  ◌⊎◌, inl, inr, arith, length, take, lacks, all, append-nil, append_assoc, Bool-cases,
}
use traceability.Core.Chain.{Bytes}
use traceability.Station.Spool.{
  io, spool, SpoolRecord, Codec, Disk, newline, content, torn, extend, write_line, is_utf8,
  strip_cr, last_line, lines_from, lines, is_space, append, or_skip, read_line, read_lines, load,
}
use traceability.Station.Spool.Lines.{lines_from-line, lines_from-lacks, take-lacks, is_utf8-append}
use traceability.Station.Spool.Durability.{lines-append, IsLine, Holds, read_lines-append}

lacks-append :
    (a b : Bytes) → lacks newline a ≡ true → lacks newline b ≡ true → lacks newline (a ++ b) ≡ true
lacks-append [] b h k = k
lacks-append (x ∷ a) b h k = ground (arith, h, lacks-append a b (ground (arith, h)) k)

extend-extend : (disk : Disk) (a b : Bytes) → extend (extend disk a) b ≡ extend disk (a ++ b)
unfolding extend
extend-extend disk a b =
    ap (λ bytes. record disk { spool = some bytes }) (append_assoc (content disk.spool) a b)

module _ {J : Type 0} (codec : Codec J) where
  or_skip_le : (o : Option (SpoolRecord J)) → length (or_skip codec o) ≤ 1
  or_skip_le none = omega arith
  or_skip_le (some r) = omega arith

  read_line_le : (line : Bytes) → length (read_line codec line) ≤ 1
  unfolding read_line
  read_line_le line = elim (Bool-cases (all is_space line)) [
    | inl blank ↦ rw blank (omega arith)
    | inr full ↦ rw full (or_skip_le (codec.from_str line))
  ]

  last_line_le : (text : Bytes) → length (read_lines codec (last_line text)) ≤ 1
  unfolding read_lines
  last_line_le [] = omega arith
  last_line_le (b ∷ text) = rw (append-nil (read_line codec (b ∷ text))) (read_line_le (b ∷ text))

  -- What is read behind the records that a file holds.
  load-extend :
      (disk : Disk) (records : List (SpoolRecord J)) (bytes : Bytes)
      → Holds codec disk records
      → is_utf8 bytes ≡ true
      → load codec false (extend disk bytes) ≡ ok (records ++ read_lines codec (lines bytes))
  unfolding load extend
  load-extend disk records bytes h u =
      rw
        (
          is_utf8-append (content disk.spool) bytes h.utf8,
          u,
          lines-append (content disk.spool) bytes h.whole,
          read_lines-append codec (lines (content disk.spool)) (lines bytes),
          h.loaded,
        )
        refl

  load-broken :
      (disk : Disk) (records : List (SpoolRecord J)) (bytes : Bytes)
      → Holds codec disk records
      → is_utf8 bytes ≡ false
      → load codec false (extend disk bytes) ≡ err (io spool)
  unfolding load extend
  load-broken disk records bytes h u = rw (is_utf8-append (content disk.spool) bytes h.utf8, u) refl

  one_line_le :
      (text : Bytes) → lacks newline text ≡ true → length (read_lines codec (lines text)) ≤ 1
  unfolding lines
  one_line_le text h = rw (lines_from-lacks [] text h) (last_line_le text)

  merged_line :
      (torn_line line : Bytes)
      → lacks newline torn_line ≡ true
      → lacks newline line ≡ true
      → codec.from_str (strip_cr (torn_line ++ line)) ≡ none
      → read_lines codec (lines (torn_line ++ (line ++ newline ∷ []))) ≡ []
  unfolding lines lines_from read_lines read_line
  merged_line torn_line line h k e =
      ap (λ text. read_lines codec (lines_from [] text))
        (sym (append_assoc torn_line line (newline ∷ [])))
      ∙ (ap (read_lines codec)
            (lines_from-line [] (torn_line ++ line) [] (lacks-append torn_line line h k))
          ∙ (append-nil (read_line codec (strip_cr (torn_line ++ line)))
              ∙ (elim (Bool-cases (all is_space (strip_cr (torn_line ++ line)))) [
                | inl blank ↦ rw blank refl
                | inr full ↦ rw (full, e) refl
              ])))

  -- An append that is torn before its newline reports an error, and leaves a file that either loads
  -- as all the records before it and at most one more, or, where it was torn inside a character,
  -- does not load at all.
  pub append-torn :
      (disk : Disk) (records : List (SpoolRecord J)) (r : SpoolRecord J) (l : IsLine codec r)
      (written : ℕ)
      → Holds codec disk records
      → written ≤ length l.line
      → ((append codec (some (torn written)) disk r).1 ≡ err (io spool))
        × (((more : List (SpoolRecord J)) × (load codec false
                  (append codec (some (torn written)) disk r).0
                ≡ ok (records ++ more))
              × (length more ≤ 1))
            ⊎ ((load codec false (append codec (some (torn written)) disk r).0 ≡ err (io spool))
                × (is_utf8 (take written (l.line ++ newline ∷ [])) ≡ false)))
  unfolding append write_line
  append-torn disk records r l written h short = rw l.written (
    refl,
    elim (Bool-cases (is_utf8 (take written (l.line ++ newline ∷ [])))) [
      | inl u ↦ inl (
        read_lines codec (lines (take written (l.line ++ newline ∷ []))),
        load-extend disk records (take written (l.line ++ newline ∷ [])) h u,
        one_line_le (take written (l.line ++ newline ∷ []))
            (take-lacks written l.line (newline ∷ []) l.one_line short),
      )
      | inr u ↦ inr (load-broken disk records (take written (l.line ++ newline ∷ [])) h u, u)
    ],
  )

  -- A record that is appended behind a torn line, where the two together are not one record, is
  -- reported as captured and is not in the queue: neither it nor the torn one is loaded.
  pub append-lost_after_torn :
      (disk : Disk) (records : List (SpoolRecord J)) (torn_line : Bytes) (r : SpoolRecord J)
      (l : IsLine codec r)
      → Holds codec disk records
      → lacks newline torn_line ≡ true
      → is_utf8 torn_line ≡ true
      → codec.from_str (strip_cr (torn_line ++ l.line)) ≡ none
      → ((append codec none (extend disk torn_line) r).1 ≡ ok tt)
        × (load codec false (append codec none (extend disk torn_line) r).0 ≡ ok records)
  unfolding append write_line
  append-lost_after_torn disk records torn_line r l h one u e = rw l.written (
    refl,
    ap (load codec false) (extend-extend disk torn_line (l.line ++ newline ∷ []))
        ∙ (load-extend disk records (torn_line ++ (l.line ++ newline ∷ [])) h
              (is_utf8-append torn_line (l.line ++ newline ∷ []) u ∙ l.utf8)
            ∙ ap ok (
                ap (λ rs. records ++ rs) (merged_line torn_line l.line one l.one_line e)
                ∙ append-nil records)),
  )
