-- ===== src/Sample/System.antt =====
-- A concrete file system, which keeps its promises: files by their names.
use t_sync_sdk_go.Base.{
  ◌≡◌, refl, ap, ◌∙◌, inl, inr, true, Option, none, some, [], ◌∷◌, ◌++◌, arith, Bool-cases,
  Option-cases, pos, length, if◌then◌else◌, bytes_eq,
}
use t_sync_sdk_go.Base.Bytes.{Bytes, codes, no_slash, split-no_slash, has_prefix, has_prefix-append}
use t_sync_sdk_go.Base.Dict
use t_sync_sdk_go.Base.Dict.{Dict, lookup-insert, lookup-erase}
use t_sync_sdk_go.Errors.{GoError, sentinel, file_not_exist, invalid_name, Result, ok, err}
use t_sync_sdk_go.Names.{base, last_part_of}
use t_sync_sdk_go.Files.{FileSystem, FileStat, KeepsFiles}

abbrev Disk : Type 0
Disk = Dict Bytes Bytes

abbrev read_disk : Option Bytes → Result Bytes
read_disk none = err (sentinel file_not_exist)
read_disk (some b) = ok b

abbrev stat_disk : Option Bytes → Result FileStat
stat_disk none = err (sentinel file_not_exist)
stat_disk (some b) = ok (record { is_regular = true; size = pos (length b) })

abbrev pub temp_name : Bytes → Bytes
temp_name pattern = pattern ++ codes "0"

abbrev create : Disk → Bytes → Disk × Result Bytes
create s pattern =
    if no_slash pattern
    then (Dict.insert (temp_name pattern) [] s, ok (temp_name pattern))
    else (s, err (sentinel invalid_name))

abbrev append_to : Disk → Bytes → Bytes → Option Bytes → Disk × Option GoError
append_to s w b none = (s, some (sentinel file_not_exist))
append_to s w b (some old) = (Dict.insert w (old ++ b) s, none)

abbrev move : Disk → Bytes → Bytes → Option Bytes → Disk × Option GoError
move s from to none = (s, some (sentinel file_not_exist))
move s from to (some b) = (Dict.insert to b (Dict.erase from s), none)

abbrev pub disk : FileSystem
disk = record {
  State = Disk;
  Handle = Bytes;
  name = λ w. w;
  read_file = λ s p. read_disk (Dict.lookup p s);
  stat = λ s p. stat_disk (Dict.lookup p s);
  mkdir_all = λ s d. (s, none);
  create_temp = λ s d pattern. create s pattern;
  write = λ s w b. append_to s w b (Dict.lookup w s);
  chmod = λ s w. (s, none);
  sync = λ s w. (s, none);
  close = λ s w. (s, none);
  rename = λ s from to. move s from to (Dict.lookup from s);
  remove = λ s p. (Dict.erase p s, none);
  sync_dir = λ s d. (s, none);
}

no_slash-temp_name : (s : Bytes) → no_slash s ≡ true → no_slash (temp_name s) ≡ true
unfolding no_slash
no_slash-temp_name [] h = refl
no_slash-temp_name (x ∷ s) h = ground (arith, no_slash-temp_name s)

base-no_slash : (s : Bytes) → no_slash s ≡ true → base s ≡ s
unfolding base last_part_of
base-no_slash s h = rw (split-no_slash s h) refl

named :
    (pattern : Bytes)
    → no_slash pattern ≡ true
    → has_prefix (base (temp_name pattern)) pattern ≡ true
named pattern h =
    ap (λ z. has_prefix z pattern)
      (base-no_slash (temp_name pattern) (no_slash-temp_name pattern h))
    ∙ has_prefix-append pattern (codes "0")

pub disk-KeepsFiles : KeepsFiles disk
disk-KeepsFiles = record {
  read-mkdir = λ s d q. refl;
  created_name = λ s d pattern w made. elim (Bool-cases (no_slash pattern)) [
    | inr bad ↦ absurd (ground arith)
    | inl plain ↦ ground (arith, named pattern plain)
  ];
  created_empty = λ s d pattern w made. elim (Bool-cases (no_slash pattern)) [
    | inr bad ↦ absurd (ground arith)
    | inl plain ↦ ground (arith, lookup-insert w (temp_name pattern) [] s)
  ];
  read-create = λ s d pattern q other. elim (Bool-cases (no_slash pattern)) [
    | inr bad ↦ ground arith
    | inl plain ↦ ground (arith, lookup-insert q (temp_name pattern) [] s, named pattern plain)
  ];
  written = λ s w b old fine there. ground (arith, lookup-insert w w (old ++ b) s);
  read-write = λ s w b q other. elim (Option-cases (Dict.lookup w s)) [
    | inl missing ↦ rw missing refl
    | inr (old, there) ↦ rw there (ground (arith, lookup-insert q w (old ++ b) s))
  ];
  read-chmod = λ s w q. refl;
  read-sync = λ s w q. refl;
  read-close = λ s w q. refl;
  renamed = λ s from to fine. elim (Option-cases (Dict.lookup from s)) [
    | inl missing ↦ absurd (ground arith)
    | inr (b, there) ↦ rw there (ground (arith, lookup-insert to to b (Dict.erase from s)))
  ];
  read-rename = λ s from to q not_from not_to. elim (Option-cases (Dict.lookup from s)) [
    | inl missing ↦ rw missing refl
    | inr (b, there) ↦
        rw there (ground (arith, lookup-insert q to b (Dict.erase from s), lookup-erase q from s))
  ];
  not_renamed = λ s from to q e failed. elim (Option-cases (Dict.lookup from s)) [
    | inl missing ↦ rw missing refl
    | inr (b, there) ↦ absurd (ground arith)
  ];
  read-remove = λ s p q other. ground (arith, lookup-erase q p s);
  stat_size = λ s p b st there got. ground arith;
  read-sync_dir = λ s d q. refl;
}
