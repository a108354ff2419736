-- ===== src/Friends/Caller.antt =====
-- The checks of the caller in context.go, the profiles of ../user/query.go, and the page parameters of
-- helper.go. `valid` is identity.Validate.
use maim.Common.{
  ℕ, ◌+◌, ◌-◌, ◌*◌, ◌/◌, ◌%◌, ◌^◌, Bool, true, ◌&&◌, ◌||◌, not, Option, none, some, List, [], ◌∷◌,
  Result, ok, ◌>>◌, guard, or_fail, if◌then◌else◌, ◌==◌, ltb, find, exists, select, ℤ, pos, negsuc,
  pos_part, ltb_ℤ,
}
use maim.Friends.Model.{
  User, Contacts, FriendError, unauthenticated, forbidden, invalid_param, invalid_user_id,
  user_not_found,
}

-- The identity that the interceptor left in the context; the empty text if it is none.
abbrev pub user_id_from_context : (ℕ → Bool) → ℕ → ℕ
user_id_from_context valid caller = if valid caller then caller else 0

abbrev pub all_valid : (ℕ → Bool) → List ℕ → Bool
all_valid valid [] = true
all_valid valid (i ∷ is) = valid i && all_valid valid is

unfoldable pub validate_caller : (ℕ → Bool) → ℕ → ℕ → List ℕ → Result FriendError (Unit {0})
validate_caller valid caller requested ids = do
  let user = user_id_from_context valid caller
  guard (not (user == 0)) unauthenticated
  guard (requested == 0 || requested == user) forbidden
  guard (all_valid valid ids) invalid_param

-- validateCaller, and the test of the identity that every handler repeats behind it.
unfoldable pub check_caller : (ℕ → Bool) → ℕ → ℕ → List ℕ → Result FriendError ℕ
unfolding validate_caller
check_caller valid caller requested ids = do
  validate_caller valid caller requested ids
  let user = user_id_from_context valid caller
  guard (not (user == 0)) unauthenticated
  ok user

unfoldable pub get_user_info : (ℕ → Bool) → ℕ → Contacts → Result FriendError User
get_user_info valid id t = do
  guard (valid id) invalid_user_id
  or_fail (find (λ u. u.id == id) t.users) user_not_found

unfoldable pub batch_get_user_info : (ℕ → Bool) → List ℕ → Contacts → Result FriendError (List User)
batch_get_user_info valid [] t = ok []
batch_get_user_info valid (i ∷ is) t = do
  guard (all_valid valid (i ∷ is)) invalid_user_id
  ok (select (λ u. exists (λ j. u.id == j) (i ∷ is)) t.users)

-- The map of batchGetUserInfo, where a later profile replaces an earlier one with its identity.
abbrev pub user_of : ℕ → List User → Option User
user_of id [] = none
user_of id (u ∷ us) = elim (user_of id us) [
  | some v ↦ some v
  | none ↦ if u.id == id then some u else none
]

-- The page of a request: int32 fields.
pub record Pagination : Type 0 where
  pub page : ℤ
  pub page_size : ℤ

-- A page number below 1 is the first, and a size outside 1 to 100 is 20.
abbrev pub page_number : ℤ → ℕ
page_number p = if ltb_ℤ p (pos 1) then 1 else pos_part p

abbrev pub size_of_page : ℤ → ℕ
size_of_page s = if ltb_ℤ s (pos 1) || ltb_ℤ (pos 100) s then 20 else pos_part s

-- The offset and the limit.
unfoldable pub pagination_params : Option Pagination → ℕ × ℕ
pagination_params none = (0, 20)
pagination_params (some p) =
    ((page_number p.page - 1) * size_of_page p.page_size, size_of_page p.page_size)

-- A conversion to int32 keeps the 32 low bits, read in two's complement.
abbrev pub int32 : ℕ → ℤ
int32 n =
    let low : ℕ = n % 2 ^ 32 in if ltb low (2 ^ 31) then pos low else negsuc (2 ^ 32 - low - 1)

pub record PaginationResp : Type 0 where
  pub page : ℤ
  pub page_size : ℤ
  pub total : ℕ
  pub total_pages : ℤ

unfoldable pub pagination_resp : ℕ → ℕ → ℕ → PaginationResp
pagination_resp page page_size total = record {
  page = int32 page;
  page_size = int32 page_size;
  total = total;
  total_pages = if ltb 0 page_size then int32 ((total + page_size - 1) / page_size) else pos 0;
}

-- The page and the size that the handlers of the lists report.
unfoldable pub reported_page : Option Pagination → ℕ × ℕ
reported_page none = (1, 20)
reported_page (some p) = (page_number p.page, size_of_page p.page_size)
