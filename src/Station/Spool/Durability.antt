-- ===== src/Station/Spool/Durability.antt =====
-- What a station's queue (apps/trace-station/src/spool.rs) keeps.
use traceability.Base.{
  ℕ, String, Bool, true, false, not, List, [], ◌∷◌, ◌++◌, Option, none, some, ok, ◌≡◌, refl, sym,
  ap, ◌∙◌, inl, inr, filter, all, length, lacks, All, append-nil, append_assoc, Bool-cases,
}
use traceability.Core.Chain.{Bytes}
use traceability.Station.Spool.{
  SpoolRecord, Codec, Disk, newline, content, extend, write_line, is_utf8, utf8_state, strip_cr,
  lines_from, lines, is_space, append, read_line, read_lines, load_content, load, encode_all,
  CompactFault, load_failed, create_failed, compact_sync_failed, rename_failed, compact_torn,
  is_acknowledged, compact, compact_loaded, remove_acknowledged,
}
use traceability.Station.Spool.Lines.{lines_from-line, lines_from-append, is_utf8-append}

-- The file is empty or ends in a newline.
pub data IsEnded (text : Bytes) : Type 0 where
  nothing : text ≡ [] → IsEnded text
  ended : (a : Bytes) → text ≡ a ++ newline ∷ [] → IsEnded text

pub lines-append : (a b : Bytes) → IsEnded a → lines (a ++ b) ≡ lines a ++ lines b
unfolding lines lines_from
lines-append a b (nothing e) = rw e refl
lines-append a b (ended x e) =
    rw e (ap (lines_from []) (append_assoc x (newline ∷ []) b) ∙ lines_from-append [] x b)

IsEnded-append : (a b : Bytes) → IsEnded a → IsEnded b → IsEnded (a ++ b)
IsEnded-append a b h (nothing e) = rw (e, append-nil a) h
IsEnded-append a b h (ended y e) = ended (a ++ y) (rw e (sym (append_assoc a y (newline ∷ []))))

All-append : {A : Type 0} (P : A → Type 0) (xs ys : List A) → All P xs → All P ys → All P (xs ++ ys)
All-append P [] ys h k = k
All-append P (x ∷ xs) ys h k = (h.0, All-append P xs ys h.1 k)

All-filter :
    {A : Type 0} (P : A → Type 0) (p : A → Bool) (xs : List A) → All P xs → All P (filter p xs)
All-filter P p [] h = tt
All-filter P p (x ∷ xs) h = elim (Bool-cases (p x)) [
  | inl yes_x ↦ rw yes_x (h.0, All-filter P p xs h.1)
  | inr no_x ↦ rw no_x (All-filter P p xs h.1)
]

-- What is done to a queue. An acknowledgement may be cut short anywhere; an append here is one that
-- succeeds.
pub data Op (J : Type 0) : Type 0 where
  enqueue : (r : SpoolRecord J) → Op J
  acknowledge : (fault : Option CompactFault) → (acked : List String) → Op J

module _ {J : Type 0} where
  -- The queue as a list of records.
  unfoldable pub queue_step : List (SpoolRecord J) → Op J → List (SpoolRecord J)
  queue_step queue (enqueue r) = queue ++ r ∷ []
  queue_step queue (acknowledge none acked) = filter (λ r. not (is_acknowledged acked r)) queue
  queue_step queue (acknowledge (some fault) acked) = queue

  unfoldable pub queue_run : List (SpoolRecord J) → List (Op J) → List (SpoolRecord J)
  queue_run queue [] = queue
  queue_run queue (op ∷ ops) = queue_run (queue_step queue op) ops

module _ {J : Type 0} (codec : Codec J) where
  -- What is expected of the text of a record: one line of UTF-8 that is not blank, that does not end
  -- in a carriage return, and that is read back as the record.
  pub record IsLine (r : SpoolRecord J) : Type 0 where
    pub line : Bytes
    pub written : codec.to_string r ≡ ok line
    pub one_line : lacks newline line ≡ true
    pub utf8 : is_utf8 (line ++ newline ∷ []) ≡ true
    pub not_blank : all is_space line ≡ false
    pub no_return : strip_cr line ≡ line
    pub read_back : codec.from_str line ≡ some r

  -- The file holds these records and is fit to be added to.
  pub record Holds (disk : Disk) (records : List (SpoolRecord J)) : Type 0 where
    pub whole : IsEnded (content disk.spool)
    pub utf8 : is_utf8 (content disk.spool) ≡ true
    pub loaded : read_lines codec (lines (content disk.spool)) ≡ records
    pub lawful : All IsLine records

  pub read_lines-append :
      (xs ys : List Bytes)
      → read_lines codec (xs ++ ys) ≡ read_lines codec xs ++ read_lines codec ys
  unfolding read_lines
  read_lines-append [] ys = refl
  read_lines-append (x ∷ xs) ys =
      ap (λ rs. read_line codec x ++ rs) (read_lines-append xs ys)
      ∙ sym (append_assoc (read_line codec x) (read_lines codec xs) (read_lines codec ys))

  pub load-Holds :
      (disk : Disk) (records : List (SpoolRecord J))
      → Holds disk records
      → load codec false disk ≡ ok records
  unfolding load read_lines lines lines_from
  load-Holds disk records h = by_file disk.spool refl
    where
      by_file :
          (file : Option Bytes) → disk.spool ≡ file → load_content codec disk.spool ≡ ok records
      by_file none e = rw e (ap ok (rw e at h.loaded))
      by_file (some raw) e =
          let utf8 : is_utf8 raw ≡ true = rw e at h.utf8 in
          let loaded : read_lines codec (lines raw) ≡ records = rw e at h.loaded in
          rw (e, utf8, loaded) refl

  lines-record :
      (r : SpoolRecord J) (l : IsLine r)
      → read_lines codec (lines (l.line ++ newline ∷ [])) ≡ r ∷ []
  unfolding lines lines_from read_lines read_line
  lines-record r l =
      rw (lines_from-line [] l.line [] l.one_line, l.no_return, l.not_blank, l.read_back) refl

  extend-Holds :
      (disk : Disk) (records more : List (SpoolRecord J)) (block : Bytes)
      → Holds disk records
      → IsEnded block
      → is_utf8 block ≡ true
      → read_lines codec (lines block) ≡ more
      → All IsLine more
      → Holds (extend disk block) (records ++ more)
  unfolding extend
  extend-Holds disk records more block h e u l a = record {
    whole = IsEnded-append (content disk.spool) block h.whole e;
    utf8 = is_utf8-append (content disk.spool) block h.utf8 ∙ u;
    loaded =
        ap (read_lines codec) (lines-append (content disk.spool) block h.whole)
        ∙ rw (read_lines-append (lines (content disk.spool)) (lines block), h.loaded, l) refl;
    lawful = All-append IsLine records more h.lawful a;
  }

  append-Holds :
      (disk : Disk) (records : List (SpoolRecord J)) (r : SpoolRecord J)
      → Holds disk records
      → IsLine r
      → ((append codec none disk r).1 ≡ ok tt)
        × Holds (append codec none disk r).0 (records ++ r ∷ [])
  unfolding append write_line
  append-Holds disk records r h l = rw l.written (
    refl,
    extend-Holds disk records (r ∷ []) (l.line ++ newline ∷ []) h (ended l.line refl) l.utf8
        (lines-record r l) (l, tt),
  )

  -- Only the file itself counts.
  rebase :
      {disk other : Disk} {records : List (SpoolRecord J)}
      → disk.spool ≡ other.spool
      → Holds disk records
      → Holds other records
  rebase e h = record {
    whole = rw e at h.whole;
    utf8 = rw e at h.utf8;
    loaded = rw e at h.loaded;
    lawful = h.lawful;
  }

  -- The text of lawful records: it ends in a newline and is read back as the records.
  pub record IsBuffer (records : List (SpoolRecord J)) : Type 0 where
    pub buffer : Bytes
    pub encodes : encode_all codec records ≡ ok buffer
    pub holds : Holds (record { spool = some buffer; compacting = none }) records

  encode-All-IsBuffer : (records : List (SpoolRecord J)) → All IsLine records → IsBuffer records
  unfolding encode_all read_lines lines lines_from is_utf8 utf8_state extend
  encode-All-IsBuffer [] h = record {
    buffer = [];
    encodes = refl;
    holds = record { whole = nothing refl; utf8 = refl; loaded = refl; lawful = tt };
  }
  encode-All-IsBuffer (r ∷ records) (l, h) =
      let b = encode-All-IsBuffer records h in
      let first : Holds (record { spool = some (l.line ++ newline ∷ []); compacting = none })
          (r ∷ []) =
        record {
          whole = ended l.line refl;
          utf8 = l.utf8;
          loaded = lines-record r l;
          lawful = (l, tt);
        } in
      record {
        buffer = l.line ++ newline ∷ b.buffer;
        encodes = rw (l.written, b.encodes) refl;
        holds = rw (sym (append_assoc l.line (newline ∷ []) b.buffer)) (
            rebase refl (
              extend-Holds _ (r ∷ []) records b.buffer first b.holds.whole b.holds.utf8
                b.holds.loaded h));
      }

  unfoldable pub disk_step : Disk → Op J → Disk
  disk_step disk (enqueue r) = (append codec none disk r).0
  disk_step disk (acknowledge fault acked) = (remove_acknowledged codec fault disk acked).0

  unfoldable pub disk_run : Disk → List (Op J) → Disk
  disk_run disk [] = disk
  disk_run disk (op ∷ ops) = disk_run (disk_step disk op) ops

  abbrev pub IsLawfulOp : Op J → Type 0
  IsLawfulOp (enqueue r) = IsLine r
  IsLawfulOp (acknowledge fault acked) = Unit

  compact-Holds :
      (fault : Option CompactFault) (disk : Disk) (queue : List (SpoolRecord J))
      (acked : List String) (n : ℕ) (buffer : Bytes)
      → Holds disk queue
      → Holds
          (record { spool = some buffer; compacting = none })
          (filter (λ r. not (is_acknowledged acked r)) queue)
      → Holds (compact fault disk n buffer).0 (queue_step queue (acknowledge fault acked))
  unfolding compact queue_step
  compact-Holds none disk queue acked n buffer h b = b
  compact-Holds (some load_failed) disk queue acked n buffer h b = h
  compact-Holds (some create_failed) disk queue acked n buffer h b = h
  compact-Holds (some (compact_torn written)) disk queue acked n buffer h b = rebase refl h
  compact-Holds (some compact_sync_failed) disk queue acked n buffer h b = rebase refl h
  compact-Holds (some rename_failed) disk queue acked n buffer h b = rebase refl h

  loaded-Holds :
      (fault : Option CompactFault) (disk : Disk) (queue : List (SpoolRecord J))
      (acked : List String)
      → Holds disk queue
      → Holds
          (compact_loaded codec fault disk acked (ok queue)).0
          (queue_step queue (acknowledge fault acked))
  loaded-Holds fault disk queue acked h =
      let remaining = filter (λ r. not (is_acknowledged acked r)) queue in
      let b =
        encode-All-IsBuffer remaining
          (All-filter IsLine (λ r. not (is_acknowledged acked r)) queue h.lawful) in
      rw b.encodes (compact-Holds fault disk queue acked (length remaining) b.buffer h b.holds)

  -- An acknowledgement, cut short or not.
  remove-Holds :
      (fault : Option CompactFault) (disk : Disk) (queue : List (SpoolRecord J))
      (acked : List String)
      → Holds disk queue
      → Holds
          (remove_acknowledged codec fault disk acked).0
          (queue_step queue (acknowledge fault acked))
  unfolding remove_acknowledged queue_step load
  remove-Holds (some load_failed) disk queue acked h = h
  remove-Holds none disk queue acked h =
      rw (load-Holds disk queue h) (loaded-Holds none disk queue acked h)
  remove-Holds (some create_failed) disk queue acked h =
      rw (load-Holds disk queue h) (loaded-Holds (some create_failed) disk queue acked h)
  remove-Holds (some (compact_torn n)) disk queue acked h =
      rw (load-Holds disk queue h) (loaded-Holds (some (compact_torn n)) disk queue acked h)
  remove-Holds (some compact_sync_failed) disk queue acked h =
      rw (load-Holds disk queue h) (loaded-Holds (some compact_sync_failed) disk queue acked h)
  remove-Holds (some rename_failed) disk queue acked h =
      rw (load-Holds disk queue h) (loaded-Holds (some rename_failed) disk queue acked h)

  step-Holds :
      (disk : Disk) (queue : List (SpoolRecord J)) (op : Op J)
      → Holds disk queue
      → IsLawfulOp op
      → Holds (disk_step disk op) (queue_step queue op)
  unfolding disk_step queue_step
  step-Holds disk queue (enqueue r) h l = (append-Holds disk queue r h l).1
  step-Holds disk queue (acknowledge fault acked) h l = remove-Holds fault disk queue acked h

  -- The file implements the list. However appends that succeed and acknowledgements that succeed or
  -- are cut short anywhere follow each other, starting from a file that holds a list of records, the
  -- file loads as what the same operations make of the list, in order.
  pub disk_run-refines :
      (disk : Disk) (queue : List (SpoolRecord J)) (ops : List (Op J))
      → Holds disk queue
      → All IsLawfulOp ops
      → load codec false (disk_run disk ops) ≡ ok (queue_run queue ops)
  unfolding disk_run queue_run
  disk_run-refines disk queue [] h l = load-Holds disk queue h
  disk_run-refines disk queue (op ∷ ops) h l =
      disk_run-refines (disk_step disk op) (queue_step queue op) ops
        (step-Holds disk queue op h l.0) l.1
