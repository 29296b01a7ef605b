-- ===== src/Tests/Disks.antt =====
-- Instances for the module cache: a compiler that keeps the code, files by their paths, and a memory
-- for one module.
use Prim.Native.String.{String}
use cosmwasm.Base.{
  ℕ, ◌%◌, ◌≡◌, ◌≢◌, refl, sym, ap, ◌∙◌, ◌⊎◌, inl, inr, Option, none, some, [], ◌∷◌, ◌++◌, Bool,
  true, false, Result, ok, err, if◌then◌else◌, drop, length, arith, Bool-cases,
}
use cosmwasm.Bytes.{Bytes}
use cosmwasm.Vm.Modules.{
  Engine, Disk, Lru, FilePath, SizedModule, IoError, not_found, other, DeserializeError, io,
  corrupted,
}
use cosmwasm.Vm.Modules.PinnedMemoryCache.{same, same_refl, eq_of_same}
use cosmwasm.Vm.Cache.Sound.{IsEngine, IsDisk, IsLru}
use cosmwasm.Vm.Cache.Blob.{IsFiles, contents}

-- A module is its limit and its code; the hash is the length.
abbrev pub Compiled : Type 0
Compiled = Option ℕ × Bytes

abbrev pub engine : Engine Compiled
engine = record {
  new_module = λ limit code. ok (limit, code);
  size_of_val = λ m. 1;
  serialize = λ m. m.1;
  limit_of_store = λ m. m.0;
  sha256 = λ code. (length code % 256) ∷ [];
}

pub engine-IsEngine : IsEngine engine
engine-IsEngine = record { sha256-IsBytes = λ code. (omega arith, tt) }

pub data File : Type 0 where
  absent : File
  blob : Bytes → File
  artifact : Compiled → File

abbrev pub Files : Type 0
Files = FilePath → File

unfoldable pub same_path : FilePath → FilePath → Bool
same_path [] [] = true
same_path [] (y ∷ q) = false
same_path (x ∷ p) [] = false
same_path (x ∷ p) (y ∷ q) = let rest = same_path p q in if same x y then rest else false

same_path_refl : (p : FilePath) → same_path p p ≡ true
unfolding same_path
same_path_refl [] = refl
same_path_refl (x ∷ p) = ground (arith, same_refl x, same_path_refl p)

eq_of_same_path : (p q : FilePath) → same_path p q ≡ true → p ≡ q
unfolding same_path
eq_of_same_path [] [] h = refl
eq_of_same_path [] (y ∷ q) h = cc
eq_of_same_path (x ∷ p) [] h = cc
eq_of_same_path (x ∷ p) (y ∷ q) h = elim (Bool-cases (same x y)) [
  | inl e ↦ cc (eq_of_same x y e, eq_of_same_path p q (ground arith))
  | inr e ↦ ground arith
]

abbrev put : Files → FilePath → File → Files
put d p f q = if same_path p q then f else d q

put_self : (d : Files) (p : FilePath) (f : File) → put d p f p ≡ f
put_self d p f = ground (arith, same_path_refl p)

put_ne : (d : Files) (p q : FilePath) (f : File) → p ≢ q → put d p f q ≡ d q
put_ne d p q f n = elim (Bool-cases (same_path p q)) [
  | inl e ↦ absurd (n (eq_of_same_path p q e))
  | inr e ↦ ground arith
]

abbrev read : File → Result IoError Bytes
read absent = err not_found
read (blob bytes) = ok bytes
read (artifact m) = err other

abbrev is_there : File → Result IoError (Unit {0})
is_there absent = err not_found
is_there (blob bytes) = ok tt
is_there (artifact m) = ok tt

abbrev revive : Option ℕ → File → Result DeserializeError Compiled
revive s absent = err (io not_found)
revive s (blob bytes) = err corrupted
revive s (artifact m) = ok (s, m.1)

abbrev pub files : Disk Files Compiled
files = record {
  exists = λ d p. true;
  metadata = λ d p. ok (record { is_dir = true; readonly = false });
  create_dir_all = λ d p. (ok tt, d);
  open_for_writing = λ d p. (ok tt, d);
  write_all =
      λ d p bytes. (ok tt, put d p (blob (bytes ++ drop (length bytes) (contents (read (d p))))));
  open_for_reading = λ d p. is_there (d p);
  read_to_end = λ d p. read (d p);
  serialize_to_file = λ d p m. (ok tt, put d p (artifact m));
  deserialize_from_file = λ d s p. revive s (d p);
}

revived :
    (d : Files) (p : FilePath) (m m' : Compiled) (s : Option ℕ)
    → revive s (put d p (artifact m) p) ≡ ok m'
    → m'.1 ≡ m.1
revived d p m m' s h =
    let back : revive s (artifact m) ≡ ok m' =
      ap (revive s) (sym (put_self d p (artifact m))) ∙ h in
    cc

revive-limit : (s : Option ℕ) (f : File) (m : Compiled) → revive s f ≡ ok m → m.0 ≡ s
revive-limit s absent m h = cc
revive-limit s (blob bytes) m h = cc
revive-limit s (artifact n) m h = cc

pub files-IsDisk : IsDisk engine files
files-IsDisk = record {
  create-deserialize = λ d p q s. refl;
  open-deserialize = λ d p q s n. refl;
  write-deserialize = λ d p q bytes s n. ap (revive s) (put_ne d p q _ n);
  serialize-deserialize_ne = λ d p q m s n. ap (revive s) (put_ne d p q (artifact m) n);
  serialize-deserialize_self = λ d p m m' s h. inl (revived d p m m' s h);
  deserialize-limit = λ d p m s h. revive-limit s (d p) m h;
  new_module-limit = λ s code m h. cc;
}

pub files-IsFiles : IsFiles files
files-IsFiles = record {
  open_write-read = λ d d1 d2 p bytes opened written.
      let same_disk : d ≡ d1 = ap (λ x. x.1) opened in
      let e : put d p (blob (bytes ++ drop (length bytes) (contents (read (d p))))) ≡ d2 =
        ap (λ x. put x p (blob (bytes ++ drop (length bytes) (contents (read (x p)))))) same_disk
        ∙ ap (λ x. x.1) written in
      let now =
        ap (λ x. x p) (sym e)
        ∙ put_self d p (blob (bytes ++ drop (length bytes) (contents (read (d p))))) in
      (ap is_there now, ap read now);
  create_keeps = λ d p q. (refl, refl);
  serialize_keeps = λ d p q m n.
      (ap is_there (put_ne d p q (artifact m) n), ap read (put_ne d p q (artifact m) n));
}

-- At most one module.
abbrev pub Slot : Type 0
Slot = Option (Bytes × SizedModule Compiled)

abbrev look : Slot → Bytes → Option (SizedModule Compiled)
look none k = none
look (some (j, v)) k = if same j k then some v else none

abbrev HoldsOne : Slot → Bytes → Compiled → Type 0
HoldsOne none k m = ⊥
HoldsOne (some (j, v)) k m = (j ≡ k) × (v.code_module ≡ m)

abbrev pub slot : Lru Slot Compiled
slot = record {
  with_config = λ n. none;
  put_with_weight = λ l k v. ok (some (k, v));
  get = λ l k. (look l k, l);
}

look-HoldsOne :
    (l : Slot) (k : Bytes) (v : SizedModule Compiled)
    → look l k ≡ some v
    → HoldsOne l k v.code_module
look-HoldsOne none k v h = cc
look-HoldsOne (some (j, w)) k v h = elim (Bool-cases (same j k)) [
  | inl e ↦ (eq_of_same j k e, ground arith)
  | inr e ↦ ground arith
]

put-HoldsOne :
    (l l' : Slot) (k j : Bytes) (v : SizedModule Compiled) (m : Compiled)
    → Path (Result String Slot) (ok (some (k, v))) (ok l')
    → HoldsOne l' j m
    → ((j ≡ k) × (m ≡ v.code_module)) ⊎ HoldsOne l j m
put-HoldsOne l none k j v m h held = cc
put-HoldsOne l (some (i, w)) k j v m h held = inl (cc, cc)

pub slot-IsLru : IsLru slot
slot-IsLru = record {
  Holds = HoldsOne;
  with_config-Holds = λ n k m held. held;
  get-Holds = look-HoldsOne;
  get_keeps = λ l k j m held. held;
  put-Holds = put-HoldsOne;
}
