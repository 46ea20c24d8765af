-- ===== src/AppConfig.antt =====
-- frontend/apps/miniapp/src/app.config.ts: the pages that can be navigated to.
use smart_parcel_locker.Prelude.{Text, text, List, [], ◌∷◌, map, String}

abbrev pub page_paths : List String
page_paths =
    "pages/home/index" ∷ "pages/location/index" ∷ "pages/sites/index" ∷ "pages/site-detail/index"
    ∷ "pages/locker-selection/index" ∷ "pages/order-confirm/index" ∷ "pages/payment/index"
    ∷ "pages/orders/index" ∷ "pages/order-detail/index" ∷ "pages/store/index" ∷ "pages/pickup/index"
    ∷ "pages/overdue/index" ∷ "pages/me/index" ∷ []

-- `pages`
unfoldable pub pages : List Text
pages = map text page_paths

-- `tabBar.list`: the pages of the tab bar, with their texts. The platform opens them by `switchTab`
-- and not by `navigateTo`.
unfoldable pub tab_bar : List (Text × Text)
tab_bar =
    (text "pages/home/index", text "首页")
    ∷ (text "pages/orders/index", text "订单")
    ∷ (text "pages/sites/index", text "网点")
    ∷ (text "pages/me/index", text "我的")
    ∷ []

unfoldable pub tab_pages : List Text
unfolding tab_bar
tab_pages = map (λ (tab : Text × Text). tab.0) tab_bar
