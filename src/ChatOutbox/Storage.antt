-- ===== src/ChatOutbox/Storage.antt =====
-- The secure storage under the outbox (mobile/src/shared/lib/secureStorage.ts): its two entries, and
-- what holds of them before a routine, after it, and where it stops because a call was rejected. The
-- keychain of the device is an argument.
use etkin_link.Base.{◌≡◌, refl, Bool, true, false, Option, none, some, if◌then◌else◌}
use etkin_link.Int.{ℤ}
use etkin_link.Text.{Str}
use etkin_link.Effect.{Act, pure, throw, call, ◌>>=◌}
use etkin_link.Effect.Hoare.{Hoare, Hoare-pure, Hoare-throw, Hoare-call, Hoare-bind}

-- `storageKey` and `backupStorageKey`
pub data Key : Type 0 where
  main backup : Key

-- A reply `none` or `false` is a rejected promise.
pub data Call : Type 0 where
  get_item : Key → Option (Option Str) → Call
  set_item : Key → Str → Bool → Call
  remove_item : Key → Bool → Call
  clock : ℤ → Call

pub record Storage (W : Type 0) : Type 0 where
  pub get : Key → W → Option (Option Str) × W
  pub set : Key → Str → W → Bool × W
  pub remove : Key → W → Bool × W
  pub now : W → ℤ × W

pub record Slots : Type 0 where
  pub main_text : Option Str
  pub backup_text : Option Str

abbrev pub slot : Key → Slots → Option Str
slot main s = s.main_text
slot backup s = s.backup_text

abbrev pub put : Key → Option Str → Slots → Slots
put main text s = record s { main_text = text }
put backup text s = record s { backup_text = text }

-- A keychain keeps what is set, and its entries are apart: a call that is rejected may leave anything
-- in the entry it was for, and leaves the other one as it was. The clock shows a time of T.
pub record IsKeychain {W : Type 0} (storage : Storage W) (slots : W → Slots) (T : ℤ → Type 0)
    : Type 0 where
  pub get_keeps : (k : Key) (w : W) → slots (storage.get k w).1 ≡ slots w
  pub get_reads :
      (k : Key) (w : W) (text : Option Str)
      → (storage.get k w).0 ≡ some text
      → text ≡ slot k (slots w)
  pub set_writes :
      (k : Key) (text : Str) (w : W)
      → (storage.set k text w).0 ≡ true
      → slots (storage.set k text w).1 ≡ put k (some text) (slots w)
  pub set_rejected :
      (k : Key) (text : Str) (w : W)
      → (storage.set k text w).0 ≡ false
      → (left : Option Str) × (slots (storage.set k text w).1 ≡ put k left (slots w))
  pub remove_writes :
      (k : Key) (w : W)
      → (storage.remove k w).0 ≡ true
      → slots (storage.remove k w).1 ≡ put k none (slots w)
  pub remove_rejected :
      (k : Key) (w : W)
      → (storage.remove k w).0 ≡ false
      → (left : Option Str) × (slots (storage.remove k w).1 ≡ put k left (slots w))
  pub now_keeps : (w : W) → slots (storage.now w).1 ≡ slots w
  pub now_shows : (w : W) → T (storage.now w).0

-- A rejected call ends the routine.
pub data Rejected : Type 0 where
  rejected : Rejected

abbrev pub Step : Type 0 → Type 0 → Type 0
Step W A = Act W Call Rejected A

module _ {W : Type 0} (storage : Storage W) where
  pub item_or_throw : Option (Option Str) → Step W (Option Str)
  item_or_throw none = throw rejected
  item_or_throw (some item) = pure item

  pub done_or_throw : Bool → Step W (Unit {0})
  done_or_throw true = pure tt
  done_or_throw false = throw rejected

  pub read_item : Key → Step W (Option Str)
  read_item k = do reply ← call (storage.get k) (get_item k); item_or_throw reply

  pub write_item : Key → Str → Step W (Unit {0})
  write_item k text = do done ← call (storage.set k text) (set_item k text); done_or_throw done

  pub delete_item : Key → Step W (Unit {0})
  delete_item k = do done ← call (storage.remove k) (remove_item k); done_or_throw done

  pub read_clock : Step W ℤ
  read_clock = call storage.now clock

changed :
    (b : Bool) (k : Key) (text : Option Str) (old new : Slots) (Stop After : Slots → Type 0)
    → (b ≡ true → new ≡ put k text old)
    → (b ≡ false → (left : Option Str) × (new ≡ put k left old))
    → ((left : Option Str) → Stop (put k left old))
    → After (put k text old)
    → (if b then After new else Stop new)
changed true k text old new Stop After hn ho cut done = rw (hn refl) done
changed false k text old new Stop After hn ho cut done = rw ((ho refl).1) (cut (ho refl).0)

done-Rule :
    {W : Type 0} (storage : Storage W) (slots : W → Slots) (b : Bool) (Stop After : Slots → Type 0)
    → Hoare slots
        (λ s. if b then After s else Stop s)
        (λ _ s. After s)
        (λ _ s. Stop s)
        (done_or_throw storage b)
unfolding done_or_throw
done-Rule storage slots true Stop After = Hoare-pure tt (λ s p. p)
done-Rule storage slots false Stop After = Hoare-throw rejected (λ s p. p)

module _ {W : Type 0} {storage : Storage W} {slots : W → Slots} {T : ℤ → Type 0}
    (keychain : IsKeychain storage slots T) {Pre Stop : Slots → Type 0} where
  item-Rule :
      (k : Key) (reply : Option (Option Str))
      → Hoare slots
          (λ s. Stop s × ((text : Option Str) → reply ≡ some text → (text ≡ slot k s) × Pre s))
          (λ text s. (text ≡ slot k s) × Pre s)
          (λ _ s. Stop s)
          (item_or_throw storage reply)
  unfolding item_or_throw
  item-Rule k none = Hoare-throw rejected (λ s p. p.0)
  item-Rule k (some text) = Hoare-pure text (λ s p. p.1 text refl)

  -- Reading shows what is stored. `Stop` holds wherever a rejected call, or the end of the app, may
  -- cut a routine short.
  pub read_item-Rule :
      (k : Key)
      → ((s : Slots) → Pre s → Stop s)
      → Hoare slots Pre (λ text s. (text ≡ slot k s) × Pre s) (λ _ s. Stop s) (read_item storage k)
  unfolding read_item
  read_item-Rule k cut =
      Hoare-bind
        (λ reply s. Stop s × ((text : Option Str) → reply ≡ some text → (text ≡ slot k s) × Pre s))
        _ _
        (Hoare-call _ _ (λ w p.
          rw (keychain.get_keeps k w)
            (cut (slots w) p, λ text e. (keychain.get_reads k w text e, p))))
        (λ reply. item-Rule k reply)

  -- Writing puts the text there; where it is rejected, the entry may be anything.
  pub write_item-Rule :
      (k : Key) (text : Str) (After : Slots → Type 0)
      → ((s : Slots) → Pre s → (left : Option Str) → Stop (put k left s))
      → ((s : Slots) → Pre s → After (put k (some text) s))
      → Hoare slots Pre (λ _ s. After s) (λ _ s. Stop s) (write_item storage k text)
  unfolding write_item
  write_item-Rule k text After cut done =
      Hoare-bind (λ b s. if b then After s else Stop s) _ _
        (Hoare-call _ _ (λ w p.
          changed _ k (some text) (slots w) _ Stop After (keychain.set_writes k text w)
            (keychain.set_rejected k text w) (cut (slots w) p) (done (slots w) p)))
        (λ b. done-Rule storage slots b Stop After)

  pub delete_item-Rule :
      (k : Key) (After : Slots → Type 0)
      → ((s : Slots) → Pre s → (left : Option Str) → Stop (put k left s))
      → ((s : Slots) → Pre s → After (put k none s))
      → Hoare slots Pre (λ _ s. After s) (λ _ s. Stop s) (delete_item storage k)
  unfolding delete_item
  delete_item-Rule k After cut done =
      Hoare-bind (λ b s. if b then After s else Stop s) _ _
        (Hoare-call _ _ (λ w p.
          changed _ k none (slots w) _ Stop After (keychain.remove_writes k w)
            (keychain.remove_rejected k w) (cut (slots w) p) (done (slots w) p)))
        (λ b. done-Rule storage slots b Stop After)

  pub read_clock-Rule :
      Hoare slots Pre (λ now s. T now × Pre s) (λ _ s. Stop s) (read_clock storage)
  unfolding read_clock
  read_clock-Rule = Hoare-call _ _ (λ w p. (keychain.now_shows w, rw (keychain.now_keeps w) p))
