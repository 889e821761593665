-- ===== src/Restore/Extract/Writes.antt =====
-- The writing of one restored file: all or nothing.
use t_sync_sdk_go.Base.{
  ℕ, ◌≡◌, ◌≢◌, refl, ap, ◌∙◌, inl, inr, true, false, Option, none, some, [], arith, Option-cases,
  length, bytes_eq,
}
use t_sync_sdk_go.Base.Bytes.{Bytes, has_prefix}
use t_sync_sdk_go.Errors.{GoError, wrap, Result, ok, err, Result-cases}
use t_sync_sdk_go.Streams.{Reader}
use t_sync_sdk_go.Metadata.{FileRecord, BackupMetadata, Storage}
use t_sync_sdk_go.Names.{base}
use t_sync_sdk_go.Paths.{render}
use t_sync_sdk_go.Files.{FileSystem, KeepsFiles, and_also, publish}
use t_sync_sdk_go.Files.Publish.{Fills, publish-Replaces}
use t_sync_sdk_go.Crypto.{Box}
use t_sync_sdk_go.Backup.Part.{crc32_ieee, first_error}
use t_sync_sdk_go.Restore.Extract.{
  PartReader, Extraction, answered, after_mkdir, restore_temp, is_length, check_content, copied,
  fill_temp, seal_temp, wrap_error, replace_file, Plan, dir_of, write_file,
}

-- What is asked of a restored content.
abbrev pub Matches : FileRecord → Bytes → Type 0
Matches rec d = (is_length rec.uncompressed_size (length d) ≡ true) × (crc32_ieee d ≡ rec.crc32)

check_content-Matches :
    (rec : FileRecord) (comp : ℕ) (d : Bytes) → check_content rec comp d ≡ none → Matches rec d
unfolding check_content
check_content-Matches rec comp d h = (ground arith, ground arith)

module _ (F : FileSystem) (keeps : KeepsFiles F) where
  copied-Matches :
      (rec : FileRecord) (comp decoded : Reader) (e : Option GoError)
      → copied F rec comp decoded e ≡ none
      → (e ≡ none) × Matches rec decoded.content
  copied-Matches rec comp decoded (some x) h = absurd (ground arith)
  copied-Matches rec comp decoded none h =
      elim (Option-cases (first_error decoded.failure comp.failure)) [
        | inr (x, failed) ↦ absurd (ground (arith, failed))
        | inl fine ↦ (
          refl,
          check_content-Matches rec (length comp.content) decoded.content (ground (arith, fine)),
        )
      ]

  wrap_error-none : (t : F.State × Option GoError) → (wrap_error t).1 ≡ none → t.1 ≡ none
  wrap_error-none (s, none) h = refl
  wrap_error-none (s, some x) h = absurd (ground arith)

  wrap_error-state : (t : F.State × Option GoError) → (wrap_error t).0 ≡ t.0
  wrap_error-state (s, none) = refl
  wrap_error-state (s, some x) = refl

  -- A call that changes no file, after others.
  module _ (s : F.State) (temp d : Bytes) (call : F.State → F.State × Option GoError)
      (idle : (u : F.State) (q : Bytes) → F.read_file (call u).0 q ≡ F.read_file u q) where
    still-Fills :
        (t : F.State × Option GoError)
        → Fills F s temp d t
        → Fills F s temp d (and_also t (λ u. wrap_error (call u)))
    still-Fills (t, some x) fills = fills
    still-Fills (t, none) fills = record {
      filled = λ h.
          ap (λ u. F.read_file u temp) (wrap_error-state (call t))
          ∙ idle t temp
          ∙ fills.filled refl;
      outside = λ q other.
          ap (λ u. F.read_file u q) (wrap_error-state (call t)) ∙ idle t q ∙ fills.outside q other;
    }

  fill_temp-Fills :
      (s u : F.State) (w : F.Handle) (rec : FileRecord) (comp decoded : Reader)
      → F.read_file u (F.name w) ≡ ok []
      → ((q : Bytes) → q ≢ F.name w → F.read_file u q ≡ F.read_file s q)
      → Fills F s (F.name w) decoded.content (fill_temp F w rec comp decoded u)
  fill_temp-Fills s u w rec comp decoded empty same = record {
    filled = λ h.
        keeps.written u w decoded.content []
          (copied-Matches rec comp decoded (F.write u w decoded.content).1 h).0 empty;
    outside = λ q other. keeps.read-write u w decoded.content q other ∙ same q other;
  }

  and_also-none :
      (t : F.State × Option GoError) (rest : F.State → F.State × Option GoError)
      → (and_also t rest).1 ≡ none
      → t.1 ≡ none
  and_also-none (s, none) rest h = refl
  and_also-none (s, some x) rest h = absurd (ground arith)

  publish-none :
      (w : F.Handle) (final : Bytes) (t : F.State × Option GoError)
      → (publish F wrap w final t).1 ≡ none
      → t.1 ≡ none
  publish-none w final (s, none) h = refl
  publish-none w final (s, some x) h = absurd (ground arith)

  -- What is asked of the writing of a file at `final`, from the state `s` to the result `t`.
  pub record Writes (s : F.State) (final : Bytes) (rec : FileRecord) (d : Bytes)
      (t : F.State × Option GoError) : Type 0 where
    pub done : t.1 ≡ none → (F.read_file t.0 final ≡ ok d) × Matches rec d
    pub kept : (e : GoError) → t.1 ≡ some e → F.read_file t.0 final ≡ F.read_file s final
    pub others :
        (q : Bytes)
        → has_prefix (base q) restore_temp ≡ false
        → q ≢ final
        → F.read_file t.0 q ≡ F.read_file s q

  not_temp :
      (s : F.State) (dir q : Bytes) (w : F.Handle)
      → (F.create_temp s dir restore_temp).1 ≡ ok w
      → has_prefix (base q) restore_temp ≡ false
      → q ≢ F.name w
  not_temp s dir q w made plain e = ground (
    arith,
    keeps.created_name s dir restore_temp w made,
    ap (λ z. has_prefix (base z) restore_temp) e,
  )

  with_temp :
      (s s0 : F.State) (final : Bytes) (rec : FileRecord) (comp decoded : Reader) (w : F.Handle)
      → final ≢ F.name w
      → F.read_file s (F.name w) ≡ ok []
      → ((q : Bytes)
          → has_prefix (base q) restore_temp ≡ false
          → F.read_file s q ≡ F.read_file s0 q)
      → ((q : Bytes) → has_prefix (base q) restore_temp ≡ false → q ≢ F.name w)
      → has_prefix (base final) restore_temp ≡ false
      → Writes s0 final rec decoded.content (replace_file F rec final comp decoded (s, ok w))
  with_temp s s0 final rec comp decoded w apart empty same names plain =
      let temp = F.name w in
      let d = decoded.content in
      let first = fill_temp F w rec comp decoded s in
      let filled = fill_temp-Fills s s w rec comp decoded empty (λ q other. refl) in
      let chmodded = and_also first (λ u. wrap_error (F.chmod u w)) in
      let sealed =
        still-Fills s temp d (λ u. F.sync u w) (λ u q. keeps.read-sync u w q) chmodded
          (still-Fills s temp d (λ u. F.chmod u w) (λ u q. keeps.read-chmod u w q) first filled) in
      let r = publish-Replaces F wrap keeps w final d apart s (seal_temp F w first) sealed in
      record {
        done = λ h.
            let sealed_fine = publish-none w final (seal_temp F w first) h in
            let chmod_fine = and_also-none chmodded (λ u. wrap_error (F.sync u w)) sealed_fine in
            let first_fine = and_also-none first (λ u. wrap_error (F.chmod u w)) chmod_fine in
            (r.replaced h, (copied-Matches rec comp decoded (F.write s w d).1 first_fine).1);
        kept = λ e h. r.kept e h ∙ same final plain;
        others = λ q plain_q other. r.others q (names q plain_q) other ∙ same q plain_q;
      }

  replaces_file :
      (s s0 : F.State) (dir final : Bytes) (rec : FileRecord) (comp decoded : Reader)
      → ((q : Bytes) → F.read_file s q ≡ F.read_file s0 q)
      → has_prefix (base final) restore_temp ≡ false
      → Writes s0 final rec decoded.content
          (replace_file F rec final comp decoded (F.create_temp s dir restore_temp))
  replaces_file s s0 dir final rec comp decoded same plain =
      elim (Result-cases (F.create_temp s dir restore_temp).1) [
        | inr (x, failed) ↦ rw failed (record {
          done = λ h. absurd (ground arith);
          kept = λ e h. keeps.read-create s dir restore_temp final plain ∙ same final;
          others = λ q plain_q other. keeps.read-create s dir restore_temp q plain_q ∙ same q;
        })
        | inl (w, made) ↦ rw made (
            with_temp (F.create_temp s dir restore_temp).0 s0 final rec comp decoded w
              (not_temp s dir final w made plain) (keeps.created_empty s dir restore_temp w made)
              (λ q plain_q. keeps.read-create s dir restore_temp q plain_q ∙ same q)
              (λ q plain_q. not_temp s dir q w made plain_q) plain)
      ]

module _ (F : FileSystem) (S : Storage) (box : Box) (parts : PartReader) (opts : Extraction)
    (md : BackupMetadata) where
  -- What is asked of the writing of a planned file from the state `s` to the result `t`.
  pub record Wrote (s : F.State) (plan : Plan F) (t : F.State × Result (Option Bytes))
      : Type 0 where
    pub done :
        (x : Option Bytes)
        → t.1 ≡ ok x
        → (F.read_file t.0 (render plan.out) ≡ ok plan.decoded.content)
          × Matches plan.rec plan.decoded.content
    pub kept :
        (e : GoError)
        → t.1 ≡ err e
        → F.read_file t.0 (render plan.out) ≡ F.read_file s (render plan.out)
    pub others :
        (q : Bytes)
        → has_prefix (base q) restore_temp ≡ false
        → q ≢ render plan.out
        → F.read_file t.0 q ≡ F.read_file s q

  module _ (keeps : KeepsFiles F) (plan : Plan F)
      (plain : has_prefix (base (render plan.out)) restore_temp ≡ false) where
    answered-Wrote :
        (s : F.State) (t : F.State × Option GoError)
        → Writes F keeps s (render plan.out) plan.rec plan.decoded.content t
        → Wrote s plan (answered F S box parts opts md plan t)
    answered-Wrote s (t, some e) w = record {
      done = λ x h. absurd (ground arith);
      kept = λ x h. w.kept e refl;
      others = w.others;
    }
    answered-Wrote s (t, none) w = record {
      done = λ x h. w.done refl;
      kept = λ x h. absurd (ground arith);
      others = w.others;
    }

    after_mkdir-Wrote :
        (s : F.State) (t : F.State × Option GoError)
        → ((q : Bytes) → F.read_file t.0 q ≡ F.read_file s q)
        → Wrote s plan (after_mkdir F S box parts opts md plan t)
    after_mkdir-Wrote s (t, some e) same = record {
      done = λ x h. absurd (ground arith);
      kept = λ x h. same (render plan.out);
      others = λ q plain_q other. same q;
    }
    after_mkdir-Wrote s (t, none) same =
        let dir = dir_of F S box parts opts md plan in
        answered-Wrote s
          (replace_file F plan.rec (render plan.out) plan.comp plan.decoded
            (F.create_temp t dir restore_temp))
          (replaces_file F keeps t s dir (render plan.out) plan.rec plan.comp plan.decoded same
            plain)

    pub write_file-Wrote : (s : F.State) → Wrote s plan (write_file F S box parts opts md plan s)
    unfolding write_file
    write_file-Wrote s =
        let dir = dir_of F S box parts opts md plan in
        after_mkdir-Wrote s (F.mkdir_all s dir) (λ q. keeps.read-mkdir s dir q)
