-- ===== src/DeleteAccount/Handler/Order.antt =====
-- The paths that a deletion removes, in the order of removal.
use etkin_link.Base.{List, [], ◌∷◌, ◌++◌, last_or, none, some}
use etkin_link.Text.{Str}
use etkin_link.Http.{Request, Platform}
use etkin_link.Effect.Protocol.{Follows}
use etkin_link.DeleteAccount.State.{
  Call, clock, verify_token, get_request, begin_request, advance_request, get_auth_state,
  delete_auth_user, list_storage_paths, remove_storage_paths, Dependencies,
}
use etkin_link.DeleteAccount.Handler.{delete_account}
use etkin_link.DeleteAccount.Handler.Safety.{Knowledge, nothing_known, observe, Allowed, Ascends}
use etkin_link.DeleteAccount.Handler.Stages.{MovesRow}
use etkin_link.DeleteAccount.Handler.Protocol.{delete_account-Follows}

abbrev pub removed_paths : List Call → List Str
removed_paths [] = []
removed_paths (remove_storage_paths paths _ ∷ l) = paths ++ removed_paths l
removed_paths (_ ∷ l) = removed_paths l

Ascends-append :
    (c : Str) (ps qs : List Str) → Ascends c ps → Ascends (last_or ps c) qs → Ascends c (ps ++ qs)
Ascends-append c [] qs h k = k
Ascends-append c (p ∷ ps) qs h k = (h.0, Ascends-append p ps qs h.1 k)

removed_paths-Ascends :
    (platform : Platform) (l : List Call) (g : Knowledge)
    → Follows (Allowed platform) observe g l
    → Ascends g.cursor (removed_paths l)
removed_paths-Ascends platform [] g h = tt
removed_paths-Ascends platform (remove_storage_paths paths done ∷ l) g h =
    Ascends-append g.cursor paths (removed_paths l) h.0.3
      (removed_paths-Ascends platform l (observe g (remove_storage_paths paths done)) h.1)
removed_paths-Ascends platform (clock t ∷ l) g h = removed_paths-Ascends platform l _ h.1
removed_paths-Ascends platform (verify_token t r ∷ l) g h = removed_paths-Ascends platform l _ h.1
removed_paths-Ascends platform (get_request r none ∷ l) g h = removed_paths-Ascends platform l _ h.1
removed_paths-Ascends platform (get_request r (some none) ∷ l) g h =
    removed_paths-Ascends platform l _ h.1
removed_paths-Ascends platform (get_request r (some (some s)) ∷ l) g h =
    removed_paths-Ascends platform l _ h.1
removed_paths-Ascends platform (begin_request u r none ∷ l) g h =
    removed_paths-Ascends platform l _ h.1
removed_paths-Ascends platform (begin_request u r (some s) ∷ l) g h =
    removed_paths-Ascends platform l _ h.1
removed_paths-Ascends platform (advance_request u r p q e none ∷ l) g h =
    removed_paths-Ascends platform l _ h.1
removed_paths-Ascends platform (advance_request u r p q e (some s) ∷ l) g h =
    removed_paths-Ascends platform l _ h.1
removed_paths-Ascends platform (get_auth_state u r ∷ l) g h = removed_paths-Ascends platform l _ h.1
removed_paths-Ascends platform (delete_auth_user u r ∷ l) g h =
    removed_paths-Ascends platform l _ h.1
removed_paths-Ascends platform (list_storage_paths u r a n p ∷ l) g h =
    removed_paths-Ascends platform l _ h.1

-- If the store moves the row that it is asked to move, one invocation removes paths in strictly
-- ascending order, so it asks for no path twice.
pub delete_account-Ascends :
    {W : Type 0} (platform : Platform) (deps : Dependencies W)
    → MovesRow deps
    → (request : Request) (w : W)
    → Ascends [] (removed_paths (delete_account platform deps request w).1)
delete_account-Ascends platform deps moves request w =
    removed_paths-Ascends platform _ nothing_known
      (delete_account-Follows platform deps moves request w).0
