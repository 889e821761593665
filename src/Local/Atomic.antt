-- ===== src/Local/Atomic.antt =====
-- `LocalStorage.Write` and the atomic writer replace a file in full or leave it.
use t_sync_sdk_go.Base.{
  ◌≡◌, ◌≢◌, refl, ap, ◌∙◌, inl, inr, false, Option, none, some, [], ◌∷◌, ◌++◌, arith, Bool-cases,
  Option-cases, eqb,
}
use t_sync_sdk_go.Base.Bytes.{Bytes, has_prefix, codes}
use t_sync_sdk_go.Errors.{GoError, ok, Result-cases}
use t_sync_sdk_go.Names.{base}
use t_sync_sdk_go.Files.{FileSystem, KeepsFiles, publish}
use t_sync_sdk_go.Files.Publish.{Replaces, Fills, publish-Replaces}
use t_sync_sdk_go.Local.{
  local_temp_prefix, temp_pattern, refuse, resolve_path, dir_of_path, AtomicWriter, opened,
  open_atomic_writer, before_close, dir_synced, writer_close, writer_abort, written_then_closed,
  write_opened, local_write,
}

-- A text with a longer prefix has the shorter one.
has_prefix-longer : (s p q : Bytes) → has_prefix s p ≡ false → has_prefix s (p ++ q) ≡ false
unfolding has_prefix
has_prefix-longer s [] q h = absurd (ground arith)
has_prefix-longer [] (c ∷ p) q h = refl
has_prefix-longer (x ∷ s) (c ∷ p) q h = elim (Bool-cases (eqb x c)) [
  | inl same ↦ ground (arith, has_prefix-longer s p q (ground arith))
  | inr other ↦ ground arith
]

-- Whether a file is none of the storage's temporary ones.
abbrev pub IsVisible : Bytes → Type 0
IsVisible q = has_prefix (base q) local_temp_prefix ≡ false

-- What is asked of a write at `final`, from the state `s` to the result `t`.
pub record IsAtomic (F : FileSystem) (s : F.State) (final d : Bytes) (t : F.State × Option GoError)
    : Type 0 where
  pub replaced : t.1 ≡ none → F.read_file t.0 final ≡ ok d
  pub kept : (e : GoError) → t.1 ≡ some e → F.read_file t.0 final ≡ F.read_file s final
  pub others : (q : Bytes) → IsVisible q → q ≢ final → F.read_file t.0 q ≡ F.read_file s q

module _ (F : FileSystem) (root_dir : Bytes) (keeps : KeepsFiles F) where
  visible-ne_temp :
      (s : F.State) (dir full q : Bytes) (w : F.Handle)
      → (F.create_temp s dir (temp_pattern full)).1 ≡ ok w
      → IsVisible q
      → q ≢ F.name w
  visible-ne_temp s dir full q w made visible e = ground (
    arith,
    keeps.created_name s dir (temp_pattern full) w made,
    has_prefix-longer (base q) local_temp_prefix (base full ++ codes "-") visible,
    ap (λ z. has_prefix (base z) (temp_pattern full)) e,
  )

  refuse-Fills :
      (s u : F.State) (temp d : Bytes) (ctx : Option GoError) (t : F.State × Option GoError)
      → ((q : Bytes) → F.read_file t.0 q ≡ F.read_file u q)
      → F.read_file u temp ≡ ok d
      → ((q : Bytes) → q ≢ temp → F.read_file u q ≡ F.read_file s q)
      → Fills F s temp d (refuse u ctx t)
  refuse-Fills s u temp d none t idle full same = record {
    filled = λ h. idle temp ∙ full;
    outside = λ q other. idle q ∙ same q other;
  }
  refuse-Fills s u temp d (some e) t idle full same = record {
    filled = λ h. absurd (ground arith);
    outside = same;
  }

  dir_synced-Replaces :
      (s : F.State) (final temp d : Bytes) (t : F.State × Option GoError)
      → Replaces F s final temp d t
      → Replaces F s final temp d (dir_synced F root_dir final t)
  dir_synced-Replaces s final temp d (t, some e) r = r
  dir_synced-Replaces s final temp d (t, none) r =
      let dir = dir_of_path F root_dir final in
      record {
        replaced = λ h. keeps.read-sync_dir t dir final ∙ r.replaced refl;
        kept = λ e h. absurd (ground arith);
        others =
            λ q not_temp not_final. keeps.read-sync_dir t dir q ∙ r.others q not_temp not_final;
      }

  -- `Close` of an open writer puts what its temporary file holds into place, or leaves the place,
  -- whatever the context says.
  pub writer_close-Replaces :
      (ctx : Option GoError) (w : AtomicWriter F root_dir) (s : F.State) (d : Bytes)
      → w.closed ≡ false
      → w.final_path ≢ F.name w.handle
      → F.read_file s (F.name w.handle) ≡ ok d
      → Replaces F s w.final_path (F.name w.handle) d (writer_close F root_dir ctx w s).0
  unfolding writer_close
  writer_close-Replaces ctx w s d open_still apart full =
      let temp = F.name w.handle in
      rw (open_still, writer_close)
        (dir_synced-Replaces s w.final_path temp d
          (publish F (λ e. e) w.handle w.final_path (before_close F root_dir ctx w.handle s))
          (publish-Replaces F (λ e. e) keeps w.handle w.final_path d apart s
            (before_close F root_dir ctx w.handle s)
            (refuse-Fills s s temp d ctx (F.sync s w.handle) (λ q. keeps.read-sync s w.handle q)
              full (λ q other. refl))))

  -- `Abort` changes no file but the temporary one.
  pub writer_abort-read :
      (w : AtomicWriter F root_dir) (s : F.State) (q : Bytes)
      → q ≢ F.name w.handle
      → F.read_file (writer_abort F root_dir w s).0.0 q ≡ F.read_file s q
  unfolding writer_abort
  writer_abort-read w s q other = elim (Bool-cases w.closed) [
    | inl shut ↦ rw (shut, writer_abort) refl
    | inr open_still ↦
        rw (open_still, writer_abort)
          (keeps.read-remove (F.close s w.handle).0 (F.name w.handle) q other
            ∙ keeps.read-close s w.handle q)
  ]

  module _ (s0 : F.State) (d : Bytes) (ctx : Option GoError) (w : AtomicWriter F root_dir)
      (open_still : w.closed ≡ false) (final_visible : IsVisible w.final_path)
      (names : (q : Bytes) → IsVisible q → q ≢ F.name w.handle) where
    closed_after :
        (v : F.State)
        → F.read_file v (F.name w.handle) ≡ ok d
        → ((q : Bytes) → IsVisible q → F.read_file v q ≡ F.read_file s0 q)
        → IsAtomic F s0 w.final_path d (writer_close F root_dir ctx w v).0
    closed_after v full same =
        let r =
          writer_close-Replaces ctx w v d open_still (names w.final_path final_visible) full in
        record {
          replaced = r.replaced;
          kept = λ e h. r.kept e h ∙ same w.final_path final_visible;
          others = λ q visible other. r.others q (names q visible) other ∙ same q visible;
        }

    aborted_after :
        (v : F.State) (x : GoError)
        → ((q : Bytes) → IsVisible q → F.read_file v q ≡ F.read_file s0 q)
        → IsAtomic F s0 w.final_path d ((writer_abort F root_dir w v).0.0, some x)
    aborted_after v x same = record {
      replaced = λ h. absurd (ground arith);
      kept = λ e h.
          writer_abort-read w v w.final_path (names w.final_path final_visible)
          ∙ same w.final_path final_visible;
      others = λ q visible other. writer_abort-read w v q (names q visible) ∙ same q visible;
    }

    written_after :
        (u : F.State)
        → F.read_file u (F.name w.handle) ≡ ok []
        → ((q : Bytes) → IsVisible q → F.read_file u q ≡ F.read_file s0 q)
        → IsAtomic F s0 w.final_path d (written_then_closed F root_dir ctx w (F.write u w.handle d))
    written_after u empty same =
        let v = (F.write u w.handle d).0 in
        let kept : (q : Bytes) → IsVisible q → F.read_file v q ≡ F.read_file s0 q =
          λ q visible. keeps.read-write u w.handle d q (names q visible) ∙ same q visible in
        elim (Option-cases (F.write u w.handle d).1) [
          | inr (x, failed) ↦ rw failed (aborted_after v x kept)
          | inl fine ↦ rw fine (closed_after v (keeps.written u w.handle d [] fine empty) kept)
        ]

  -- A write that has changed nothing yet.
  nothing_done :
      (s t : F.State) (final d : Bytes) (x : GoError)
      → ((q : Bytes) → IsVisible q → F.read_file t q ≡ F.read_file s q)
      → IsVisible final
      → IsAtomic F s final d (t, some x)
  nothing_done s t final d x same visible = record {
    replaced = λ h. absurd (ground arith);
    kept = λ e h. same final visible;
    others = λ q visible_q other. same q visible_q;
  }

  after_create :
      (s s1 : F.State) (dir full d : Bytes) (ctx : Option GoError)
      → IsVisible full
      → ((q : Bytes) → F.read_file s1 q ≡ F.read_file s q)
      → IsAtomic F s full d (
          write_opened F root_dir ctx d
            (opened F root_dir full (F.create_temp s1 dir (temp_pattern full))))
  after_create s s1 dir full d ctx visible same =
      let made = F.create_temp s1 dir (temp_pattern full) in
      let kept : (q : Bytes) → IsVisible q → F.read_file made.0 q ≡ F.read_file s q = λ q visible_q.
        keeps.read-create s1 dir (temp_pattern full) q
          (has_prefix-longer (base q) local_temp_prefix (base full ++ codes "-") visible_q)
        ∙ same q in
      elim (Result-cases made.1) [
        | inr (x, failed) ↦ rw failed (nothing_done s made.0 full d x kept visible)
        | inl (h, fine) ↦
            let w : AtomicWriter F root_dir = record {
              handle = h;
              final_path = full;
              closed = false;
            } in
            rw fine (
              written_after s d ctx w refl visible
                (λ q visible_q. visible-ne_temp s1 dir full q h fine visible_q) made.0
                (keeps.created_empty s1 dir (temp_pattern full) h fine) kept)
      ]

  -- If the operating system keeps its promises, then `LocalStorage.Write` to a path whose name is
  -- not that of a temporary file is all or nothing, whatever call fails and whenever the context
  -- ends: without an error the file holds exactly the data, with one it is as it was before, and in
  -- both cases no other file changes, but for temporary ones.
  pub local_write-IsAtomic :
      (ctx ctx_close : Option GoError) (path d : Bytes) (s : F.State)
      → IsVisible (resolve_path F root_dir path)
      → IsAtomic F s
          (resolve_path F root_dir path)
          d
          (local_write F root_dir ctx ctx_close path d s)
  unfolding local_write open_atomic_writer
  local_write-IsAtomic (some e) ctx_close path d s visible =
      nothing_done s s (resolve_path F root_dir path) d e (λ q v. refl) visible
  local_write-IsAtomic none ctx_close path d s visible =
      let full = resolve_path F root_dir path in
      let dir = dir_of_path F root_dir full in
      elim (Option-cases (F.mkdir_all s dir).1) [
        | inr (x, failed) ↦
            rw (failed, local_write, open_atomic_writer)
              (nothing_done s (F.mkdir_all s dir).0 full d x (λ q v. keeps.read-mkdir s dir q)
                visible)
        | inl fine ↦
            rw (fine, local_write, open_atomic_writer)
              (after_create s (F.mkdir_all s dir).0 dir full d ctx_close visible
                (λ q. keeps.read-mkdir s dir q))
      ]
