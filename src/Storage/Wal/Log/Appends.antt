-- ===== src/Storage/Wal/Log/Appends.antt =====
-- crates/adabt-storage/src/wal.rs: appending, against the list of entries.
use a_da_bt.Prelude.{
  ℕ, ◌+◌, ◌%◌, ◌^◌, ◌<◌, ◌≡◌, refl, sym, ap, ◌∙◌, subst, Bool, true, false, Option, List, [], ◌∷◌,
  ◌++◌, length, length-append, ltb, if◌then◌else◌, arith, Bool-cases, inl, inr,
}
use mathlib.Core.List.{append_assoc}
use a_da_bt.Storage.LittleEndian.{le, length-le}
use a_da_bt.Storage.Wal.Entry.{WalOp, WalEntry, encode_op, encode_payload}
use a_da_bt.Storage.Wal.Frames.{max_entry, frame}
use a_da_bt.Storage.Wal.Buffer.{Adds}
use a_da_bt.Storage.Wal.Frames.Recover.{Accepted}
use a_da_bt.Storage.Wal.Log.{
  Wal, writer, write_frame, written, sealed_if_full, next_entry, append, keep,
}
use a_da_bt.Storage.Wal.Log.Kept.{Holds, flatten, keep-append}
use a_da_bt.Storage.Wal.Log.Parts.{Part, Part-grows}
use a_da_bt.Storage.Wal.Log.Refines.{
  appends, Journal, entry_at, accept, record_event, EventFits, whole, Keeps, Implements,
}
use a_da_bt.Storage.Wal.Log.Steps.{
  Holds-body, Holds-widen, Holds-written, sealed_if_full-Implements, write_frame-Adds,
}

if-true {ℓ} : {A : Type ℓ} (a b : A) {x : Bool} → x ≡ true → (if x then a else b) ≡ a
if-true a b h = rw h refl

if-false {ℓ} : {A : Type ℓ} (a b : A) {x : Bool} → x ≡ false → (if x then a else b) ≡ b
if-false a b h = rw h refl

length-encode_payload : (e : WalEntry) → length (encode_payload e) ≡ 24 + length (encode_op e.op)
unfolding encode_payload
length-encode_payload e = omega (
  arith,
  length-append (le 8 e.lsn) (le 8 e.nanos ++ (le 8 e.txn ++ encode_op e.op)),
  length-append (le 8 e.nanos) (le 8 e.txn ++ encode_op e.op),
  length-append (le 8 e.txn) (encode_op e.op),
  length-le 8 e.lsn,
  length-le 8 e.nanos,
  length-le 8 e.txn,
)

module _ (w : Wal) (j : Journal) (now later txn : ℕ) (op : WalOp) (i : Implements w j) where
  refused-Implements :
      w.next_lsn + 1 < 2 ^ 64
      → Implements
          (record w { next_lsn = (w.next_lsn + 1) % 2 ^ 64 })
          (record j { next = j.next + 1 })
  refused-Implements small = record {
    groups = i.groups;
    tail = i.tail;
    sealed_hold = i.sealed_hold;
    active_holds = Holds-widen (whole w) i.tail w.next_lsn _ (omega arith) i.active_holds;
    same_next = omega (arith, i.same_next);
    same_entries = i.same_entries;
    keeps = record {
      same_durability = i.keeps.same_durability;
      same_group = i.keeps.same_group;
      same_pending = i.keeps.same_pending;
      sealed_whole = i.keeps.sealed_whole;
      flushed = i.keeps.flushed;
      durable = i.keeps.durable;
      synced_below = i.keeps.synced_below;
    };
  }

  same_tail :
      (from : ℕ)
      → j.floor < from
      → keep from (flatten i.groups ++ (i.tail ++ next_entry w now txn op ∷ []))
        ≡ keep from (j.entries ++ entry_at j.next now txn op ∷ [])
  same_tail from h =
      ap (keep from) (sym (append_assoc (flatten i.groups) i.tail (next_entry w now txn op ∷ [])))
      ∙ keep-append from (flatten i.groups ++ i.tail) (next_entry w now txn op ∷ [])
      ∙ ap (λ l. l ++ keep from (next_entry w now txn op ∷ [])) (i.same_entries from h)
      ∙ sym (keep-append from j.entries (next_entry w now txn op ∷ []))
      ∙ ap (λ n. keep from (j.entries ++ entry_at n now txn op ∷ [])) i.same_next

  abbrev new_entry : WalEntry
  new_entry = next_entry w now txn op

  abbrev payload : List ℕ
  payload = encode_payload (next_entry w now txn op)

  abbrev counted : Wal
  counted = record w { next_lsn = (w.next_lsn + 1) % 2 ^ 64 }

  adds : Adds (writer w) (write_frame (writer w) payload) (frame payload)
  adds = write_frame-Adds (writer w) payload

  counted_up :
      w.pending ≡ length j.undurable % 2 ^ 32
      → (w.pending + 1) % 2 ^ 32 ≡ length (j.undurable ++ new_entry ∷ []) % 2 ^ 32
  counted_up h = omega (arith, h, length-append j.undurable (new_entry ∷ []))

  written-Keeps : Keeps (written counted payload) (accept j new_entry) (i.tail ++ new_entry ∷ [])
  unfolding written
  written-Keeps =
      let longer = length-append w.active.body adds.more in
      let same_length = ap length adds.file_grows in
      record {
        same_durability = i.keeps.same_durability;
        same_group = i.keeps.same_group;
        same_pending = counted_up i.keeps.same_pending;
        sealed_whole = i.keeps.sealed_whole;
        flushed =
            subst
              (λ b. Part (i.tail ++ new_entry ∷ []) b (j.unflushed ++ new_entry ∷ []) (length b))
              (sym adds.file_grows)
              (Part-grows i.tail w.active.body j.unflushed (length w.active.body) (new_entry ∷ [])
                adds.more _ (omega (arith, longer)) i.keeps.flushed);
        durable =
            subst
              (λ b.
                Part (i.tail ++ new_entry ∷ []) b (j.undurable ++ new_entry ∷ []) w.active.synced)
              (sym adds.file_grows)
              (Part-grows i.tail w.active.body j.undurable w.active.synced (new_entry ∷ [])
                adds.more _ (omega arith) i.keeps.durable);
        synced_below = omega (arith, longer, same_length, i.keeps.synced_below);
      }

  written-Holds :
      Accepted new_entry
      → Holds (whole (written counted payload)) (i.tail ++ new_entry ∷ []) (w.next_lsn + 1)
  unfolding written
  written-Holds ok =
      Holds-body _ _ (i.tail ++ new_entry ∷ []) (w.next_lsn + 1) refl adds.in_order
        (Holds-written (whole w) i.tail new_entry ok i.active_holds)

  written-Implements :
      w.next_lsn + 1 < 2 ^ 64
      → Accepted new_entry
      → Implements (written counted payload) (accept j (entry_at j.next now txn op))
  unfolding written
  written-Implements small ok =
      let next : w.next_lsn + 1 ≡ (w.next_lsn + 1) % 2 ^ 64 = omega arith in
      record {
        groups = i.groups;
        tail = i.tail ++ new_entry ∷ [];
        sealed_hold = i.sealed_hold;
        active_holds =
            subst (λ n. Holds (whole (written counted payload)) (i.tail ++ new_entry ∷ []) n) next
              (written-Holds ok);
        same_next = omega (arith, i.same_next);
        same_entries = same_tail;
        keeps =
            subst
              (λ n.
                Keeps (written counted payload) (accept j (entry_at n now txn op))
                  (i.tail ++ new_entry ∷ []))
              i.same_next written-Keeps;
      }

  fits_length :
      EventFits (appends now later txn op) → length payload % 2 ^ 32 ≡ 24 + length (encode_op op)
  fits_length fits = omega (arith, fits.3, length-encode_payload (next_entry w now txn op))

  append_refused :
      EventFits (appends now later txn op)
      → ltb max_entry (24 + length (encode_op op)) ≡ true
      → ((append w now later txn op).0 ≡ counted)
        × (record_event j (appends now later txn op) ≡ record j { next = j.next + 1 })
  unfolding append record_event
  append_refused fits h =
      let len_j = length-encode_payload (entry_at j.next now txn op) in
      (
        ap {A = Wal × Option ℕ} (λ r. r.0)
            (if-true _ _ (ap (ltb max_entry) (fits_length fits) ∙ h)),
        if-true _ _ (ap (ltb max_entry) len_j ∙ h),
      )

  append_accepted :
      EventFits (appends now later txn op)
      → ltb max_entry (24 + length (encode_op op)) ≡ false
      → ((append w now later txn op).0 ≡ sealed_if_full (written counted payload) later)
        × (record_event j (appends now later txn op) ≡ accept j (entry_at j.next now txn op))
  unfolding append record_event
  append_accepted fits h =
      let len_j = length-encode_payload (entry_at j.next now txn op) in
      (
        ap {A = Wal × Option ℕ} (λ r. r.0)
            (if-false _ _ (ap (ltb max_entry) (fits_length fits) ∙ h)),
        if-false _ _ (ap (ltb max_entry) len_j ∙ h),
      )

  pub append-Implements :
      w.next_lsn + 1 < 2 ^ 64
      → EventFits (appends now later txn op)
      → Implements (append w now later txn op).0 (record_event j (appends now later txn op))
  append-Implements small fits = elim (Bool-cases (ltb max_entry (24 + length (encode_op op)))) [
    | inl h ↦
        let (left, right) = append_refused fits h in
        subst (λ v. Implements v (record_event j (appends now later txn op))) (sym left)
          (subst (Implements counted) (sym right) (refused-Implements small))
    | inr h ↦
        let (left, right) = append_accepted fits h in
        let ok : Accepted new_entry = (
          record {
            lsn_fits = omega arith;
            nanos_fits = fits.0;
            txn_fits = fits.1;
            op_fits = fits.2;
          },
          ground (arith, length-encode_payload (next_entry w now txn op)),
        ) in
        subst (λ v. Implements v (record_event j (appends now later txn op))) (sym left)
          (subst (Implements (sealed_if_full (written counted payload) later)) (sym right) (
            sealed_if_full-Implements (written counted payload) _ later
              (written-Implements small ok)))
  ]
