-- ===== src/Files/Publish.antt =====
-- A temporary file that is put into place is there in full, or the place is as it was.
use t_sync_sdk_go.Base.{◌≡◌, ◌≢◌, refl, ◌∙◌, inl, inr, Option, none, some, arith, Option-cases}
use t_sync_sdk_go.Base.Bytes.{Bytes}
use t_sync_sdk_go.Errors.{GoError, ok}
use t_sync_sdk_go.Files.{FileSystem, KeepsFiles, discard_if_failed, close_and_rename, publish}

-- What is asked of calls that put the content `d` at `final`, from the state `s` to the result `t`,
-- with a temporary file of the name `temp`: without an error it is there, with one the place is as it
-- was, and no other file has changed.
pub record Replaces (F : FileSystem) (s : F.State) (final temp d : Bytes)
    (t : F.State × Option GoError) : Type 0 where
  pub replaced : t.1 ≡ none → F.read_file t.0 final ≡ ok d
  pub kept : (e : GoError) → t.1 ≡ some e → F.read_file t.0 final ≡ F.read_file s final
  pub others : (q : Bytes) → q ≢ temp → q ≢ final → F.read_file t.0 q ≡ F.read_file s q

-- What is asked of the calls that fill the temporary file.
pub record Fills (F : FileSystem) (s : F.State) (temp d : Bytes) (t : F.State × Option GoError)
    : Type 0 where
  pub filled : t.1 ≡ none → F.read_file t.0 temp ≡ ok d
  pub outside : (q : Bytes) → q ≢ temp → F.read_file t.0 q ≡ F.read_file s q

module _ (F : FileSystem) (describe : GoError → GoError) (keeps : KeepsFiles F) (w : F.Handle)
    (final d : Bytes) (apart : final ≢ F.name w) where
  renames :
      (s : F.State)
      → F.read_file s (F.name w) ≡ ok d
      → Replaces F s final
          (F.name w)
          d
          (discard_if_failed F describe w (F.rename s (F.name w) final))
  renames s full = elim (Option-cases (F.rename s (F.name w) final).1) [
    | inl fine ↦ rw fine (record {
      replaced = λ h. keeps.renamed s (F.name w) final fine ∙ full;
      kept = λ e h. absurd (ground arith);
      others = λ q not_temp not_final. keeps.read-rename s (F.name w) final q not_temp not_final;
    })
    | inr (x, failed) ↦ rw failed (record {
      replaced = λ h. absurd (ground arith);
      kept = λ e h.
          keeps.read-remove (F.rename s (F.name w) final).0 (F.name w) final apart
          ∙ keeps.not_renamed s (F.name w) final final x failed;
      others = λ q not_temp not_final.
          keeps.read-remove (F.rename s (F.name w) final).0 (F.name w) q not_temp
          ∙ keeps.not_renamed s (F.name w) final q x failed;
    })
  ]

  -- The start may be moved back over calls that only touch the temporary file.
  moved_back :
      (s t : F.State) (u : F.State × Option GoError)
      → ((q : Bytes) → q ≢ F.name w → F.read_file t q ≡ F.read_file s q)
      → Replaces F t final (F.name w) d u
      → Replaces F s final (F.name w) d u
  moved_back s t u same r = record {
    replaced = r.replaced;
    kept = λ e h. r.kept e h ∙ same final apart;
    others = λ q not_temp not_final. r.others q not_temp not_final ∙ same q not_temp;
  }

  removed :
      (s t : F.State) (x : GoError)
      → ((q : Bytes) → q ≢ F.name w → F.read_file t q ≡ F.read_file s q)
      → Replaces F s final (F.name w) d ((F.remove t (F.name w)).0, some x)
  removed s t x same = record {
    replaced = λ h. absurd (ground arith);
    kept = λ e h. keeps.read-remove t (F.name w) final apart ∙ same final apart;
    others = λ q not_temp not_final. keeps.read-remove t (F.name w) q not_temp ∙ same q not_temp;
  }

  closes :
      (s : F.State)
      → F.read_file s (F.name w) ≡ ok d
      → Replaces F s final
          (F.name w)
          d
          (discard_if_failed F describe w (close_and_rename F describe w final s))
  closes s full = elim (Option-cases (F.close s w).1) [
    | inr (x, failed) ↦
        rw failed (removed s (F.close s w).0 (describe x) (λ q other. keeps.read-close s w q))
    | inl fine ↦ rw fine (
        moved_back s (F.close s w).0
          (discard_if_failed F describe w (F.rename (F.close s w).0 (F.name w) final))
          (λ q other. keeps.read-close s w q)
          (renames (F.close s w).0 (keeps.read-close s w (F.name w) ∙ full)))
  ]

  -- The calls that prepare a temporary file, and then its end, put the content into place.
  pub publish-Replaces :
      (s : F.State) (t : F.State × Option GoError)
      → Fills F s (F.name w) d t
      → Replaces F s final (F.name w) d (publish F describe w final t)
  publish-Replaces s (t, none) fills =
      moved_back s t (discard_if_failed F describe w (close_and_rename F describe w final t))
        fills.outside (closes t (fills.filled refl))
  publish-Replaces s (t, some x) fills =
      removed s (F.close t w).0 x (λ q other. keeps.read-close t w q ∙ fills.outside q other)
