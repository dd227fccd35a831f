-- ===== src/StoreFile/Calls.antt =====
-- The directory of a store, and the calls of the file system that the stores make, one function for
-- each. The environment chooses what comes of each call.
use ceal_cli.Base.{
  ℕ, suc, List, [], ◌∷◌, take, Option, none, some, Bool, true, false, ◌&&◌, ◌==◌, if◌then◌else◌,
}

-- A name in the directory, by its code points.
abbrev pub Name : Type 0
Name = List ℕ

pub record File : Type 0 where
  pub mode : ℕ
  -- mtimeMs
  pub modified : ℕ
  pub contents : List ℕ

pub data Node : Type 0 where
  plain : File → Node
  symlink : (dangling : Bool) → Node
  directory : Node

abbrev pub Entries : Type 0
Entries = List (Name × Node)

abbrev pub same_name : Name → Name → Bool
same_name [] [] = true
same_name [] (c ∷ cs) = false
same_name (b ∷ bs) [] = false
same_name (b ∷ bs) (c ∷ cs) = b == c && same_name bs cs

unfoldable pub find : Name → Entries → Option Node
find n [] = none
find n ((m, v) ∷ es) = if same_name m n then some v else find n es

unfoldable pub without : Name → Entries → Entries
without n [] = []
without n ((m, v) ∷ es) = if same_name m n then without n es else (m, v) ∷ without n es

-- An entry that takes the place of any of its name.
unfoldable pub put : Name → Node → Entries → Entries
unfolding without
put n v es = (n, v) ∷ without n es

-- The directory, and how many calls of the file system were made on it.
pub record Disk : Type 0 where
  pub entries : Entries
  pub calls : ℕ

-- What comes of a call.
pub data Fault : Type 0 where
  works fails dies : Fault
  -- a write that fails, and one at which the process dies, after so many bytes
  partly dies_within : ℕ → Fault

pub data Thrown : Type 0 where
  unsafe_store io_error : Thrown

pub data Ended (A : Type 0) : Type 0 where
  done : A → Ended A
  thrown : Thrown → Ended A
  killed : Ended A

abbrev pub Action : Type 0 → Type 0
Action A = Disk → Ended A × Disk

abbrev pub follow : {A B : Type 0} → (A → Action B) → Ended A × Disk → Ended B × Disk
follow f (done a, d) = f a d
follow f (thrown e, d) = (thrown e, d)
follow f (killed, d) = (killed, d)

infixl 5 ◌>>=◌ ◌>>◌
abbrev pub ◌>>=◌ : {A B : Type 0} → Action A → (A → Action B) → Action B
◌>>=◌ m f d = follow f (m d)

abbrev pub ◌>>◌ : {B : Type 0} → Action (Unit {0}) → Action B → Action B
m >> k = m >>= λ _. k

abbrev pub pure : {A : Type 0} → A → Action A
pure a d = (done a, d)

abbrev pub throw : {A : Type 0} → Thrown → Action A
throw e d = (thrown e, d)

-- try { m } catch { k }
abbrev pub ignore : Ended (Unit {0}) × Disk → Ended (Unit {0}) × Disk
ignore (done _, d) = (done tt, d)
ignore (thrown _, d) = (done tt, d)
ignore (killed, d) = (killed, d)

abbrev pub conclude : Ended (Unit {0}) → Ended (Unit {0}) × Disk → Ended (Unit {0}) × Disk
conclude r (done _, d) = (r, d)
conclude r (thrown e, d) = (thrown e, d)
conclude r (killed, d) = (killed, d)

-- try { m } finally { k }: what k throws takes the place of what m throws, and a process that died
-- runs neither.
abbrev pub finally : Action (Unit {0}) → Ended (Unit {0}) × Disk → Ended (Unit {0}) × Disk
finally k (done u, d) = conclude (done u) (k d)
finally k (thrown e, d) = conclude (thrown e) (k d)
finally k (killed, d) = (killed, d)

-- One call of the file system: `act` is what it does if it works.
abbrev pub perform : {A : Type 0} → Fault → (Entries → Ended A × Entries) → Disk → Ended A × Disk
perform works act d =
    let (r, es) = act d.entries in (r, record { entries = es; calls = suc d.calls })
perform fails act d = (thrown io_error, record d { calls = suc d.calls })
perform (partly _) act d = (thrown io_error, record d { calls = suc d.calls })
perform (dies_within _) act d = (killed, record d { calls = suc d.calls })
perform dies act d = (killed, record d { calls = suc d.calls })

abbrev pub stat_of : Option Node → Ended Node
stat_of none = thrown io_error
stat_of (some v) = done v

-- What the operating system brings.
pub record Environment : Type 0 where
  pub fault : ℕ → Fault
  -- Date.now()
  pub now : ℕ
  -- process.pid and randomBytes(8), as texts
  pub pid : List ℕ
  pub nonce : List ℕ
  -- 0o600 under the process's umask
  pub masked_mode : ℕ

abbrev pub with_mode : ℕ → Option Node → Entries → Name → Ended (Unit {0}) × Entries
with_mode mode (some (plain f)) es n = (done tt, put n (plain (record f { mode = mode })) es)
with_mode mode _ es n = (thrown io_error, es)

abbrev pub rename_to : Name → Name → Option Node → Entries → Ended (Unit {0}) × Entries
rename_to source target none es = (thrown io_error, es)
rename_to source target (some v) es = (done tt, put target v (without source es))

-- writeFileSync with the flag `wx`: none is EEXIST
abbrev pub create : Fault → Name → File → Option Node → Disk → Ended (Unit {0}) × Disk
create (partly k) n f none d = (
  thrown io_error,
  record {
    entries = put n (plain (record f { contents = take k f.contents })) d.entries;
    calls = suc d.calls;
  },
)
create (dies_within k) n f none d = (
  killed,
  record {
    entries = put n (plain (record f { contents = take k f.contents })) d.entries;
    calls = suc d.calls;
  },
)
create fault n f none d = perform fault (λ es. (done tt, put n (plain f) es)) d
create fault n f (some _) d = perform fault (λ es. (thrown io_error, es)) d

module _ (v : Environment) where
  abbrev pub call : {A : Type 0} → (Entries → Ended A × Entries) → Action A
  call act d = perform (v.fault d.calls) act d

  -- lstatSync
  unfoldable pub stat : Name → Action Node
  stat n = call λ es. (stat_of (find n es), es)

  -- rmSync(name, { force: true })
  unfoldable pub delete : Name → Action (Unit {0})
  delete n = call λ es. (done tt, without n es)

  unfoldable pub change_mode : Name → ℕ → Action (Unit {0})
  change_mode n mode = call λ es. with_mode mode (find n es) es n

  unfoldable pub rename : Name → Name → Action (Unit {0})
  rename source target = call λ es. rename_to source target (find source es) es

  unfoldable pub write_new : Name → List ℕ → Action (Unit {0})
  write_new n contents d =
      create (v.fault d.calls) n
        (record { mode = v.masked_mode; modified = v.now; contents = contents }) (find n d.entries)
        d

abbrev pub names : Entries → List Name
names [] = []
names ((n, _) ∷ es) = n ∷ names es
