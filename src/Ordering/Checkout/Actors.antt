-- ===== src/Ordering/Checkout/Actors.antt =====
-- Who may act on an order (internal/ordering/application/command: orders.go `actorFor`, fulfillment.go
-- `sellerActor`), and the permissions of roles (internal/identity/api).
use go_marketplace_backend.Base.{
  Bool, not, List, [], ◌∷◌, ◌==◌, if◌then◌else◌, Result, ok, err, any, ℕ,
}
use go_marketplace_backend.Base.Text.{Text, is_empty, text_eq}
use go_marketplace_backend.Kernel.Identifier.{Ident}
use go_marketplace_backend.Ordering.Status.{ActorKind, Actor}
use go_marketplace_backend.Ordering.Types.{Order}
use go_marketplace_backend.Ordering.Order.{seller_ids}
use go_marketplace_backend.Ordering.Checkout.{
  Fails, Dependencies, M, pure, fail, ◌>>=◌, call, unauthenticated, forbidden, order_not_found,
}

pub data Permission : Type 0 where
  users_block users_manage_roles sessions_revoke_any sellers_moderate sellers_manage : Permission
  commissions_manage catalog_moderate categories_manage reviews_moderate : Permission
  orders_support refunds_initiate disputes_resolve promotions_manage : Permission

abbrev permission_code : Permission → ℕ
permission_code users_block = 0
permission_code users_manage_roles = 1
permission_code sessions_revoke_any = 2
permission_code sellers_moderate = 3
permission_code sellers_manage = 4
permission_code commissions_manage = 5
permission_code catalog_moderate = 6
permission_code categories_manage = 7
permission_code reviews_moderate = 8
permission_code orders_support = 9
permission_code refunds_initiate = 10
permission_code disputes_resolve = 11
permission_code promotions_manage = 12

-- `other` stands for a text that is no role.
pub data Role : Type 0 where
  buyer content_moderator support_agent platform_admin other : Role

unfoldable pub role_permissions : Role → List Permission
role_permissions buyer = []
role_permissions content_moderator = catalog_moderate ∷ reviews_moderate ∷ sellers_moderate ∷ []
role_permissions support_agent =
    orders_support ∷ refunds_initiate ∷ disputes_resolve ∷ sessions_revoke_any ∷ []
role_permissions platform_admin =
    users_block ∷ users_manage_roles ∷ sessions_revoke_any ∷ sellers_moderate ∷ sellers_manage
    ∷ commissions_manage ∷ catalog_moderate ∷ categories_manage ∷ reviews_moderate ∷ orders_support
    ∷ refunds_initiate ∷ disputes_resolve ∷ promotions_manage ∷ []
role_permissions other = []

pub record Principal : Type 0 where
  pub user_id : Text
  pub roles : List Role

abbrev pub has : Permission → List Permission → Bool
has p ps = any (λ q. permission_code q == permission_code p) ps

unfoldable pub can : Principal → Permission → Bool
unfolding role_permissions
can p permission = any (λ r. has permission (role_permissions r)) p.roles

unfoldable pub authorize : Principal → Permission → Result Fails (Unit {0})
authorize p permission =
    if is_empty p.user_id
    then err (unauthenticated ∷ [])
    else if not (can p permission)
    then err (forbidden ∷ [])
    else ok tt

unfoldable pub actor_for : Principal → Order → Result Fails Actor
actor_for p order =
    if is_empty p.user_id
    then err (unauthenticated ∷ [])
    else if text_eq p.user_id order.buyer_id
    then ok (record { kind = ActorKind.buyer; id = p.user_id })
    else if can p orders_support
    then ok (record { kind = ActorKind.support; id = p.user_id })
    else err (order_not_found ∷ [])

module _ {W : Type 0} (d : Dependencies W) where
  -- The loop of `sellerActor`.
  unfoldable pub member_actor : Text → List Ident → M W Actor
  member_actor user [] = fail (order_not_found ∷ [])
  member_actor user (seller ∷ sellers) = do
    member ← call (d.is_member seller user)
    let rest = member_actor user sellers
    if member then pure (record { kind = ActorKind.seller; id = user }) else rest

  unfoldable pub seller_actor : Principal → Order → M W Actor
  unfolding member_actor
  seller_actor p order =
      if is_empty p.user_id
      then fail (unauthenticated ∷ [])
      else if can p orders_support
      then pure (record { kind = ActorKind.support; id = p.user_id })
      else member_actor p.user_id (seller_ids order)
