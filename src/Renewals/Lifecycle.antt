-- ===== src/Renewals/Lifecycle.antt =====
-- packages/rsg-hermes-core/hermes_core/canonical.py: the lifecycle status of a policy.
use rsg_hermes.Prelude.{
  ◌≡◌, refl, String, Bool, true, false, Option, some, List, [], ◌∷◌, any, if◌then◌else◌, or_else,
}
use rsg_hermes.Prelude.Text.{Text, codes, text_eq, strip, lower}

-- The canonical statuses; `unknown` is the empty text.
pub data Lifecycle : Type 0 where
  active up_for_renewal renewing renewed rewritten expired cancelled flat_cancel : Lifecycle
  pending_cancel non_renewed lapsed unknown : Lifecycle

-- `_STATUS_NORMALIZE`, by the canonical status.
abbrev pub status_spellings : List (Lifecycle × List String)
status_spellings =
    (active, "active" ∷ "in force" ∷ "inforce" ∷ "bound" ∷ [])
    ∷ (up_for_renewal, "up for renewal" ∷ "renewal pending" ∷ [])
    ∷ (renewing, "renewing" ∷ "in renewal" ∷ "renewal" ∷ [])
    ∷ (renewed, "renewed" ∷ [])
    ∷ (rewritten, "rewritten" ∷ [])
    ∷ (expired, "expired" ∷ [])
    ∷ (cancelled, "cancelled" ∷ "canceled" ∷ [])
    ∷ (flat_cancel, "flat cancel" ∷ "flat-cancel" ∷ "flat cancelled" ∷ [])
    ∷ (pending_cancel, "pending cancel" ∷ "pending cancellation" ∷ "cxl pending" ∷ [])
    ∷ (non_renewed, "non-renewed" ∷ "non renewed" ∷ "nonrenewed" ∷ [])
    ∷ (lapsed, "lapsed" ∷ [])
    ∷ []

unfoldable pub spelled : List (Lifecycle × List String) → Text → Lifecycle
spelled [] s = unknown
spelled ((status, names) ∷ rest) s =
    if any (λ name. text_eq (codes name) s) names then status else spelled rest s

-- `normalize_status`
unfoldable pub normalize_status : Option Text → Lifecycle
unfolding spelled strip
normalize_status raw = spelled status_spellings (lower (strip (or_else raw [])))

abbrev pub is_current : Lifecycle → Bool
is_current active = true
is_current _ = false

abbrev pub is_staged : Lifecycle → Bool
is_staged up_for_renewal = true
is_staged renewing = true
is_staged _ = false

-- `EXCLUDE_STATUSES`
abbrev pub is_dead : Lifecycle → Bool
is_dead expired = true
is_dead cancelled = true
is_dead flat_cancel = true
is_dead non_renewed = true
is_dead lapsed = true
is_dead _ = false

abbrev pub is_superseded : Lifecycle → Bool
is_superseded renewed = true
is_superseded rewritten = true
is_superseded _ = false

flat_cancelled : normalize_status (some (codes " Flat Cancelled ")) ≡ flat_cancel
unfolding normalize_status
flat_cancelled = refl
