-- ===== src/Host/Effects.antt =====
-- What each call changes, and what it did when it went well.
use douglas.Base.{List, ℕ, ◌≡◌, refl, ◌∙◌, String, Option, none, some, ok, err, ok-injective}
use douglas.Paths.{FilePath}
use douglas.Files.{FileSystemError}
use douglas.Disk.{
  File, lookup, put, remove, Differs, lookup-put, lookup-put_other, lookup-remove_other,
}
use douglas.Host.{
  Answer, done, fails, Host, answer, owned_like, copy, rename, delete, get_user_and_group_ownership,
  change_user_and_group_ownership, copy_found, rename_found, read_all, read_found, written,
  write_answered, write_all, delete_found, owner_found, chown_found, copied, append_answered,
  append_all_bytes, appended,
}

-- Nothing but `p` is changed.
abbrev pub Touches : FilePath → Host → Host → Type 0
Touches p h h' = (q : FilePath) → Differs p q → lookup q h'.disk ≡ lookup q h.disk

pub Touches-trans : (p : FilePath) (a b c : Host) → Touches p a b → Touches p b c → Touches p a c
Touches-trans p a b c f g q d = g q d ∙ f q d

copy_found-Touches :
    (from to : FilePath) (o : Option File) (a : Answer) (h : Host)
    → Touches to h (copy_found from to o a h).1
copy_found-Touches from to none a h q d = refl
copy_found-Touches from to (some f) (fails e none) h q d = refl
copy_found-Touches from to (some f) (fails e (some bytes)) h q d = lookup-put_other to q _ h.disk d
copy_found-Touches from to (some f) done h q d = lookup-put_other to q _ h.disk d

pub copy-Touches : (from to : FilePath) (h : Host) → Touches to h (copy from to h).1
unfolding copy
copy-Touches from to h = copy_found-Touches from to (lookup from h.disk) (answer h) h

delete_found-Touches :
    (p : FilePath) (o : Option File) (a : Answer) (h : Host) → Touches p h (delete_found p o a h).1
delete_found-Touches p none a h q d = refl
delete_found-Touches p (some f) (fails e bytes) h q d = refl
delete_found-Touches p (some f) done h q d = lookup-remove_other p q h.disk d

pub delete-Touches : (p : FilePath) (h : Host) → Touches p h (delete p h).1
unfolding delete
delete-Touches p h = delete_found-Touches p (lookup p h.disk) (answer h) h

chown_found-Touches :
    (p : FilePath) (user group : String) (o : Option File) (a : Answer) (h : Host)
    → Touches p h (chown_found p user group o a h).1
chown_found-Touches p user group none a h q d = refl
chown_found-Touches p user group (some f) (fails e bytes) h q d = refl
chown_found-Touches p user group (some f) done h q d = lookup-put_other p q _ h.disk d

pub chown-Touches :
    (p : FilePath) (user group : String) (h : Host)
    → Touches p h (change_user_and_group_ownership p user group h).1
unfolding change_user_and_group_ownership
chown-Touches p user group h = chown_found-Touches p user group (lookup p h.disk) (answer h) h

pub get_ownership_same :
    (p : FilePath) (h : Host) → (get_user_and_group_ownership p h).1.disk ≡ h.disk
unfolding get_user_and_group_ownership
get_ownership_same p h = refl

-- Inversion of the calls that went well.
copy_found-ok :
    (from to : FilePath) (o : Option File) (a : Answer) (h : Host)
    → (copy_found from to o a h).0 ≡ ok tt
    → (f : File) × (o ≡ some f)
      × (lookup to (copy_found from to o a h).1.disk
          ≡ some (owned_like (lookup to h.disk) (copied from to f) f))
copy_found-ok from to none a h e = absurd (cc e)
copy_found-ok from to (some f) (fails e' bytes) h e = absurd (cc e)
copy_found-ok from to (some f) done h e = (f, refl, lookup-put to _ h.disk)

chown_found-ok :
    (p : FilePath) (user group : String) (o : Option File) (a : Answer) (h : Host)
    → (chown_found p user group o a h).0 ≡ ok tt
    → (f : File) × (o ≡ some f)
      × (lookup p (chown_found p user group o a h).1.disk
          ≡ some (record f { owner = user; group = group }))
chown_found-ok p user group none a h e = absurd (cc e)
chown_found-ok p user group (some f) (fails e' bytes) h e = absurd (cc e)
chown_found-ok p user group (some f) done h e = (f, refl, lookup-put p _ h.disk)

pub copy-ok :
    (from to : FilePath) (h : Host)
    → (copy from to h).0 ≡ ok tt
    → (f : File) × (lookup from h.disk ≡ some f)
      × (lookup to (copy from to h).1.disk
          ≡ some (owned_like (lookup to h.disk) (copied from to f) f))
unfolding copy
copy-ok from to h e = copy_found-ok from to (lookup from h.disk) (answer h) h e

pub chown-ok :
    (p : FilePath) (user group : String) (h : Host)
    → (change_user_and_group_ownership p user group h).0 ≡ ok tt
    → (f : File) × (lookup p h.disk ≡ some f)
      × (lookup p (change_user_and_group_ownership p user group h).1.disk
          ≡ some (record f { owner = user; group = group }))
unfolding change_user_and_group_ownership
chown-ok p user group h e = chown_found-ok p user group (lookup p h.disk) (answer h) h e

owner_found-ok :
    (o : Option File) (a : Answer) (user group : String)
    → owner_found o a ≡ ok (user, group)
    → (f : File) × (o ≡ some f) × (user ≡ f.owner) × (group ≡ f.group)
owner_found-ok none a user group e = absurd (cc e)
owner_found-ok (some f) (fails e' bytes) user group e = absurd (cc e)
owner_found-ok (some f) done user group e = (f, refl, cc, cc)

pub get_ownership-ok :
    (p : FilePath) (h : Host) (user group : String)
    → (get_user_and_group_ownership p h).0 ≡ ok (user, group)
    → (f : File) × (lookup p h.disk ≡ some f) × (user ≡ f.owner) × (group ≡ f.group)
unfolding get_user_and_group_ownership
get_ownership-ok p h user group e = owner_found-ok (lookup p h.disk) (answer h) user group e

rename_found-ok :
    (from to : FilePath) (o : Option File) (a : Answer) (h : Host)
    → (rename_found from to o a h).0 ≡ ok tt
    → (f : File) × (o ≡ some f)
      × ((rename_found from to o a h).1.disk ≡ put to f (remove from h.disk))
rename_found-ok from to none a h e = absurd (cc e)
rename_found-ok from to (some f) (fails e' bytes) h e = absurd (cc e)
rename_found-ok from to (some f) done h e = (f, refl, refl)

pub rename-ok :
    (from to : FilePath) (h : Host)
    → (rename from to h).0 ≡ ok tt
    → (f : File) × (lookup from h.disk ≡ some f)
      × ((rename from to h).1.disk ≡ put to f (remove from h.disk))
unfolding rename
rename-ok from to h e = rename_found-ok from to (lookup from h.disk) (answer h) h e

rename_found-err :
    (from to : FilePath) (o : Option File) (a : Answer) (h : Host) (x : FileSystemError)
    → (rename_found from to o a h).0 ≡ err x
    → (rename_found from to o a h).1.disk ≡ h.disk
rename_found-err from to none a h x e = refl
rename_found-err from to (some f) (fails e' bytes) h x e = refl
rename_found-err from to (some f) done h x e = absurd (cc e)

-- A rename that fails changes nothing.
pub rename-err :
    (from to : FilePath) (h : Host) (x : FileSystemError)
    → (rename from to h).0 ≡ err x
    → (rename from to h).1.disk ≡ h.disk
unfolding rename
rename-err from to h x e = rename_found-err from to (lookup from h.disk) (answer h) h x e

rename_found-others :
    (from to q : FilePath) (o : Option File) (a : Answer) (h : Host)
    → Differs from q
    → Differs to q
    → lookup q (rename_found from to o a h).1.disk ≡ lookup q h.disk
rename_found-others from to q none a h d e = refl
rename_found-others from to q (some f) (fails x bytes) h d e = refl
rename_found-others from to q (some f) done h d e =
    lookup-put_other to q f (remove from h.disk) e ∙ lookup-remove_other from q h.disk d

pub rename-others :
    (from to q : FilePath) (h : Host)
    → Differs from q
    → Differs to q
    → lookup q (rename from to h).1.disk ≡ lookup q h.disk
unfolding rename
rename-others from to q h d e = rename_found-others from to q (lookup from h.disk) (answer h) h d e

write_answered-ok :
    (p : FilePath) (bytes : List ℕ) (a : Answer) (h : Host)
    → (write_answered p bytes a h).0 ≡ ok tt
    → (f : File) × (f.contents ≡ bytes) × (lookup p (write_answered p bytes a h).1.disk ≡ some f)
write_answered-ok p bytes (fails e none) h w = absurd (cc w)
write_answered-ok p bytes (fails e (some part)) h w = absurd (cc w)
write_answered-ok p bytes done h w =
    (written (lookup p h.disk) bytes, same (lookup p h.disk), lookup-put p _ h.disk)
  where
    same : (o : Option File) → (written o bytes).contents ≡ bytes
    same none = refl
    same (some f) = refl

pub write_all-ok :
    (p : FilePath) (bytes : List ℕ) (h : Host)
    → (write_all p bytes h).0 ≡ ok tt
    → (f : File) × (f.contents ≡ bytes) × (lookup p (write_all p bytes h).1.disk ≡ some f)
unfolding write_all
write_all-ok p bytes h w = write_answered-ok p bytes (answer h) h w

-- What was read is what is there, if the call is not refused.
pub read_all-found :
    (p : FilePath) (f : File) (h : Host)
    → answer h ≡ done
    → lookup p h.disk ≡ some f
    → (read_all p h).0 ≡ ok f.contents
unfolding read_all
read_all-found p f h a l = rw (l, a) refl

-- A write that went well put the bytes there, and did nothing else.
pub write_all-disk :
    (p : FilePath) (bytes : List ℕ) (h : Host)
    → (write_all p bytes h).0 ≡ ok tt
    → (write_all p bytes h).1.disk ≡ put p (written (lookup p h.disk) bytes) h.disk
unfolding write_all
write_all-disk p bytes h e = by_answer (answer h) e
  where
    by_answer :
        (a : Answer)
        → (write_answered p bytes a h).0 ≡ ok tt
        → (write_answered p bytes a h).1.disk ≡ put p (written (lookup p h.disk) bytes) h.disk
    by_answer (fails x none) w = absurd (cc w)
    by_answer (fails x (some part)) w = absurd (cc w)
    by_answer done w = refl

read_found-ok :
    (p : FilePath) (o : Option File) (a : Answer) (bytes : List ℕ)
    → read_found p o a ≡ ok bytes
    → (f : File) × (o ≡ some f) × (f.contents ≡ bytes)
read_found-ok p none a bytes e = absurd (cc e)
read_found-ok p (some f) (fails x part) bytes e = absurd (cc e)
read_found-ok p (some f) done bytes e = (f, refl, ok-injective e)

pub read_all-ok :
    (p : FilePath) (h : Host) (bytes : List ℕ)
    → (read_all p h).0 ≡ ok bytes
    → (f : File) × (lookup p h.disk ≡ some f) × (f.contents ≡ bytes)
unfolding read_all
read_all-ok p h bytes e = read_found-ok p (lookup p h.disk) (answer h) bytes e

pub read_all-same : (p : FilePath) (h : Host) → (read_all p h).1.disk ≡ h.disk
unfolding read_all
read_all-same p h = refl

append_answered-Touches :
    (p : FilePath) (bytes : List ℕ) (a : Answer) (h : Host)
    → Touches p h (append_answered p bytes a h).1
append_answered-Touches p bytes (fails e none) h q d = refl
append_answered-Touches p bytes (fails e (some part)) h q d = lookup-put_other p q _ h.disk d
append_answered-Touches p bytes done h q d = lookup-put_other p q _ h.disk d

pub append_all_bytes-Touches :
    (p : FilePath) (bytes : List ℕ) (h : Host) → Touches p h (append_all_bytes p bytes h).1
unfolding append_all_bytes
append_all_bytes-Touches p bytes h = append_answered-Touches p bytes (answer h) h

append_answered-ok :
    (p : FilePath) (bytes : List ℕ) (a : Answer) (h : Host)
    → (append_answered p bytes a h).0 ≡ ok tt
    → lookup p (append_answered p bytes a h).1.disk ≡ some (appended (lookup p h.disk) bytes)
append_answered-ok p bytes (fails e none) h w = absurd (cc w)
append_answered-ok p bytes (fails e (some part)) h w = absurd (cc w)
append_answered-ok p bytes done h w = lookup-put p _ h.disk

pub append_all_bytes-ok :
    (p : FilePath) (bytes : List ℕ) (h : Host)
    → (append_all_bytes p bytes h).0 ≡ ok tt
    → lookup p (append_all_bytes p bytes h).1.disk ≡ some (appended (lookup p h.disk) bytes)
unfolding append_all_bytes
append_all_bytes-ok p bytes h w = append_answered-ok p bytes (answer h) h w

write_answered-Touches :
    (p : FilePath) (bytes : List ℕ) (a : Answer) (h : Host)
    → Touches p h (write_answered p bytes a h).1
write_answered-Touches p bytes (fails e none) h q d = refl
write_answered-Touches p bytes (fails e (some part)) h q d = lookup-put_other p q _ h.disk d
write_answered-Touches p bytes done h q d = lookup-put_other p q _ h.disk d

pub write_all-Touches :
    (p : FilePath) (bytes : List ℕ) (h : Host) → Touches p h (write_all p bytes h).1
unfolding write_all
write_all-Touches p bytes h = write_answered-Touches p bytes (answer h) h
