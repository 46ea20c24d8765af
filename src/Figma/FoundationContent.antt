-- ===== src/Figma/FoundationContent.antt =====
-- tools/figma-plugin/src/domain/foundation-content.ts: what the screen of the tokens shows.
use smart_parcel_locker.Prelude.{
  ℕ, Text, text, text_eq, Option, none, some, List, [], ◌∷◌, ◌++◌, if◌then◌else◌,
}
use smart_parcel_locker.Prelude.Decimal.{print}

-- `FOUNDATION_SECTIONS`
unfoldable pub foundation_sections : List Text
foundation_sections =
    text "设计原则"
    ∷ text "颜色"
    ∷ text "排版"
    ∷ text "间距"
    ∷ text "圆角"
    ∷ text "阴影"
    ∷ text "图标"
    ∷ text "状态"
    ∷ []

-- `FoundationItemKind`
pub data FoundationItemKind : Type 0 where
  prose swatch spacing radius shadow icon status : FoundationItemKind

pub record FoundationItem : Type 0 where
  pub kind : FoundationItemKind
  pub label : Text
  pub value : Option ℕ
  pub color : Option Text
  pub description : Option Text

abbrev item : FoundationItemKind → Text → Option ℕ → FoundationItem
item kind label value = record {
  kind = kind;
  label = label;
  value = value;
  color = none;
  description = none;
}

abbrev described : Text → Text → FoundationItem
described label description = record (item prose label none) { description = some description }

abbrev colored : FoundationItemKind → Text → Text → FoundationItem
colored kind label hex = record (item kind label none) { color = some hex }

abbrev pixels : FoundationItemKind → ℕ → FoundationItem
pixels kind value = item kind (print value ++ text "px") (some value)

-- `foundationItems`, of `CONTENT`
unfoldable pub foundation_items : Text → List FoundationItem
foundation_items section =
    if text_eq section (text "设计原则")
    then described (text "可信") (text "资金、订单与设备状态清晰可追溯")
      ∷ described (text "高效") (text "主操作突出，减少用户决策成本")
      ∷ described (text "可恢复") (text "失败状态始终给出下一步操作")
      ∷ []
    else if text_eq section (text "颜色")
    then colored swatch (text "品牌蓝") (text "#1677FF")
      ∷ colored swatch (text "成功绿") (text "#12B76A")
      ∷ colored swatch (text "警告橙") (text "#F79009")
      ∷ colored swatch (text "危险红") (text "#F04438")
      ∷ colored swatch (text "中性灰") (text "#667085")
      ∷ []
    else if text_eq section (text "排版")
    then item prose (text "Display 32") (some 32)
      ∷ item prose (text "Heading 24") (some 24)
      ∷ item prose (text "Body 16") (some 16)
      ∷ item prose (text "Caption 12") (some 12)
      ∷ []
    else if text_eq section (text "间距")
    then pixels spacing 4
      ∷ pixels spacing 8
      ∷ pixels spacing 12
      ∷ pixels spacing 16
      ∷ pixels spacing 24
      ∷ pixels spacing 32
      ∷ []
    else if text_eq section (text "圆角")
    then pixels radius 4
      ∷ pixels radius 8
      ∷ pixels radius 12
      ∷ pixels radius 24
      ∷ item radius (text "Full") (some 999)
      ∷ []
    else if text_eq section (text "阴影")
    then item shadow (text "卡片") (some 8)
      ∷ item shadow (text "悬浮") (some 24)
      ∷ item shadow (text "弹窗") (some 40)
      ∷ []
    else if text_eq section (text "图标")
    then item icon (text "网点") none
      ∷ item icon (text "柜机") none
      ∷ item icon (text "订单") none
      ∷ item icon (text "支付") none
      ∷ item icon (text "通知") none
      ∷ []
    else if text_eq section (text "状态")
    then colored status (text "成功") (text "#12B76A")
      ∷ colored status (text "处理中") (text "#1677FF")
      ∷ colored status (text "警告") (text "#F79009")
      ∷ colored status (text "失败") (text "#F04438")
      ∷ colored status (text "离线") (text "#64748B")
      ∷ []
    else []
