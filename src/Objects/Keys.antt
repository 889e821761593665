-- ===== src/Objects/Keys.antt =====
-- Two paths of a storage are two objects of the bucket: the storage keeps the promises of `Storage`.
use t_sync_sdk_go.Base.{
  ℕ, ◌≡◌, ◌≢◌, refl, sym, ap, ◌∙◌, true, false, none, List, [], ◌∷◌, ◌++◌, arith, ℤ, pos, negsuc,
  map,
}
use t_sync_sdk_go.Base.Bytes.{
  Bytes, slash, no_slash, split, split-join_cons, ends_in_slash, is_relative, append-cancel,
  trim_leading_slash, trim_leading_slash-is_relative, trim_prefix-append,
}
use t_sync_sdk_go.Base.{head_eq}
use mathlib.Core.List.{append_assoc}
use t_sync_sdk_go.Errors.{ok}
use t_sync_sdk_go.Streams.{whole}
use t_sync_sdk_go.Metadata.{FileInfo, IsLawful, names_of}
use t_sync_sdk_go.Objects.{
  ObjectInfo, ObjectClient, ObjectStorage, new_object_storage, resolve_key, read, write, delete,
  file_infos, list, object_store,
}

-- What the object stores document: an object that has been put is read back, and neither a put nor
-- a delete touches the object of another key.
pub record KeepsObjects (C : ObjectClient) : Type 0 where
  pub get-put :
      (s : C.State) (b k d : Bytes)
      → (C.put_object s b k d).1 ≡ none
      → C.get_object_range (C.put_object s b k d).0 b k (pos 0) (negsuc 0) ≡ ok (whole d)
  pub get-put_other :
      (s : C.State) (b k j d : Bytes) (start end : ℤ)
      → j ≢ k
      → C.get_object_range (C.put_object s b k d).0 b j start end
        ≡ C.get_object_range s b j start end
  pub get-delete_other :
      (s : C.State) (b k j : Bytes) (start end : ℤ)
      → j ≢ k
      → C.get_object_range (C.delete_object s b k).0 b j start end
        ≡ C.get_object_range s b j start end

pub resolve_key_injective :
    (o : ObjectStorage) (p q : Bytes)
    → is_relative p ≡ true
    → is_relative q ≡ true
    → resolve_key o p ≡ resolve_key o q
    → p ≡ q
unfolding resolve_key
resolve_key_injective o p q hp hq e =
    sym (trim_leading_slash-is_relative p hp)
    ∙ append-cancel o.prefix (trim_leading_slash p) (trim_leading_slash q) e
    ∙ trim_leading_slash-is_relative q hq

-- If the client reads back what it has put, and touches no other key, then `ObjectStorage` keeps
-- the promises of the `Storage` interface, whatever its bucket and prefix: what is written is read
-- back, and no write or delete touches another relative path.
pub object_store-IsLawful :
    (C : ObjectClient) (o : ObjectStorage) (now : ℕ)
    → KeepsObjects C
    → IsLawful (object_store C o now)
unfolding read write delete
object_store-IsLawful C o now keeps = record {
  read-write = λ s p d fine. rw (keeps.get-put s o.bucket (resolve_key o p) d fine) refl;
  read-write_other = λ s p q d hp hq other.
      rw
        (keeps.get-put_other s o.bucket (resolve_key o p) (resolve_key o q) d (pos 0) (negsuc 0)
          (λ e. other (resolve_key_injective o q p hq hp e)))
        refl;
  read-delete_other = λ s p q hp hq other.
      rw
        (keeps.get-delete_other s o.bucket (resolve_key o p) (resolve_key o q) (pos 0) (negsuc 0)
          (λ e. other (resolve_key_injective o q p hq hp e)))
        refl;
}

-- A name without a slash does not end in one.
no_slash-ends_in_slash : (s : Bytes) → no_slash s ≡ true → ends_in_slash s ≡ false
unfolding no_slash ends_in_slash
no_slash-ends_in_slash [] h = refl
no_slash-ends_in_slash (x ∷ []) h = ground arith
no_slash-ends_in_slash (x ∷ y ∷ s) h = ground (arith, no_slash-ends_in_slash (y ∷ s))

-- A name of one component, as a prefix.
prefix_of-new :
    (b n : Bytes) → no_slash n ≡ true → n ≢ [] → (new_object_storage b n).prefix ≡ n ++ slash ∷ []
unfolding new_object_storage
prefix_of-new b [] clean some_name = absurd (some_name refl)
prefix_of-new b (x ∷ n) clean some_name = ground (arith, no_slash-ends_in_slash (x ∷ n) clean)

first_part :
    (b n p : Bytes)
    → no_slash n ≡ true
    → n ≢ []
    → split slash (resolve_key (new_object_storage b n) p) ≡ n ∷ split slash (trim_leading_slash p)
unfolding resolve_key
first_part b n p clean some_name = rw (prefix_of-new b n clean some_name) (
    ap (split slash) (append_assoc n (slash ∷ []) (trim_leading_slash p))
    ∙ split-join_cons n (trim_leading_slash p) clean)

-- Two storages in one bucket, under different prefixes of one component each, have no object in
-- common: their keys differ, whatever the paths.
pub resolve_key-apart :
    (b m n p q : Bytes)
    → no_slash m ≡ true
    → no_slash n ≡ true
    → m ≢ []
    → n ≢ []
    → m ≢ n
    → resolve_key (new_object_storage b m) p ≢ resolve_key (new_object_storage b n) q
resolve_key-apart b m n p q clean_m clean_n some_m some_n other e = other (
    head_eq m n (split slash (trim_leading_slash p)) (split slash (trim_leading_slash q)) (
      sym (first_part b m p clean_m some_m) ∙ ap (split slash) e ∙ first_part b n q clean_n some_n))

-- What `List` gives for the objects of a list of paths.
names_of-file_infos :
    (C : ObjectClient) (o : ObjectStorage) (now : ℕ) (objs : List ObjectInfo) (ps : List Bytes)
    → map (λ x. x.name) objs ≡ map (resolve_key o) ps
    → names_of (file_infos C o now objs) ≡ map trim_leading_slash ps
unfolding file_infos resolve_key
names_of-file_infos C o now [] [] h = refl
names_of-file_infos C o now [] (p ∷ ps) h = absurd (ground arith)
names_of-file_infos C o now (x ∷ objs) [] h = absurd (ground arith)
names_of-file_infos C o now (x ∷ objs) (p ∷ ps) h =
    ground (
      arith,
      names_of-file_infos C o now objs ps,
      trim_prefix-append o.prefix (trim_leading_slash p),
    )

-- `List` gives back paths: where the objects that the client lists have the keys of some paths,
-- `List` names those paths, in their order and without a leading slash, whatever the prefix.
pub list-resolve_key :
    (C : ObjectClient) (o : ObjectStorage) (now : ℕ) (s : C.State) (prefix : Bytes)
    (objs : List ObjectInfo) (ps : List Bytes)
    → C.list_objects s o.bucket (resolve_key o prefix) ≡ ok objs
    → map (λ x. x.name) objs ≡ map (resolve_key o) ps
    → (infos : List FileInfo) × (list C o now s prefix ≡ ok infos)
      × (names_of infos ≡ map trim_leading_slash ps)
unfolding list
list-resolve_key C o now s prefix objs ps listed named =
    (file_infos C o now objs, rw listed refl, names_of-file_infos C o now objs ps named)
