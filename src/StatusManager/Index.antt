-- ===== src/StatusManager/Index.antt =====
-- The responses of the index page.
use car_integrated_service_m.Prelude.{
  Bytes, Bool, true, false, not, any, Option, none, some, ◌≡◌, ◌↔◌, ◌⊎◌, arith,
}
use car_integrated_service_m.StatusManager.{Response, http_error, page, handle_index}

abbrev pub is_error : Response → Bool
is_error http_error = true
is_error (page text) = false

-- Whether the template makes a page of the name without an error.
abbrev pub executes :
    {Template : Type 0} → (Template → Bytes → Bytes × Bool) → Option Template → Option Bytes → Bool
executes execute (some t) (some hostname) = not (execute t hostname).1
executes execute _ _ = false

-- The index page has no error in its response exactly if the template is parsed, the name of the
-- host is known, and the template makes a page of it. The handler panics exactly if the template is
-- not parsed, always after it has written an error.
pub handle_index_lem :
    {Template : Type 0} (execute : Template → Bytes → Bytes × Bool) (template : Option Template)
    (hostname : Option Bytes)
    → let (responses, panics) = handle_index execute template hostname in
      ((any is_error responses ≡ false) ↔ (executes execute template hostname ≡ true))
      × ((panics ≡ true) ↔ (template ≡ none))
      × ((panics ≡ false) ⊎ (any is_error responses ≡ true))
unfolding handle_index
handle_index_lem execute none none = ground arith
handle_index_lem execute none (some h) = ground arith
handle_index_lem execute (some t) none = ground arith
handle_index_lem execute (some t) (some h) = ground arith
