-- ===== src/Figma/Drawing/Samples.antt =====
-- tools/figma-plugin/src/figma/adapter.ts: the sample contents of the kinds of components.
use smart_parcel_locker.Prelude.{
  ℕ, ◌==◌, Text, text, text_eq, Bool, true, ◌||◌, any, none, List, [], ◌∷◌, ◌++◌, map,
  if◌then◌else◌,
}
use smart_parcel_locker.Figma.Requests.{Value, word, indexed}
use smart_parcel_locker.Figma.Drawing.{
  Node, node, nil, ellipse_node, tint, size, text_child, surface,
}

abbrev pub ink : Value
ink = tint 6 16 30

abbrev pub grey : Value
grey = tint 40 44 52

abbrev pub blue : Value
blue = tint 9 47 100

abbrev pub white : Value
white = tint 100 100 100

abbrev pub pale : Value
pale = tint 90 95 100

-- A choice by the kind, with the last value for every other kind.
abbrev pub choose : {A : Type 0} → Text → List (Text × A) → A → A
choose kind [] default = default
choose kind ((k, a) ∷ rest) default =
    let later = choose kind rest default in if text_eq kind k then a else later

abbrev pub one_of : Text → List Text → Bool
one_of kind kinds = any (text_eq kind) kinds

unfoldable pub ellipse : ℕ → Value → Node
ellipse diameter fill =
    node ellipse_node none (size diameter diameter ++ (text "fills", fill) ∷ []) nil

abbrev pub bold : Text
bold = text "Semi Bold"

abbrev pub medium : Text
medium = text "Medium"

abbrev pub regular : Text
regular = text "Regular"

unfoldable pub field_children : Text → List Node
field_children kind =
    text_child
      (choose kind ((text "search", text "搜索网点") ∷ (text "select", text "选择城市") ∷ []) (text "手机号码"))
      13 medium (tint 20 25 33)
    ∷ surface true 44 (tint 97 98 100) 8 [] (
        text_child
          (choose kind ((text "search", text "输入网点名称或地址") ∷ (text "select", text "请选择") ∷ [])
            (text "请输入手机号"))
          13 regular grey
        ∷ [])
    ∷ []

unfoldable pub card_children : Text → List Node
card_children kind =
    text_child
      (choose kind
        ((text "site-card", text "万象城智能寄存点")
          ∷ (text "locker-size-card", text "中号柜格")
          ∷ (text "order-card", text "寄存订单 SPL20260717001")
          ∷ [])
        (text "信息卡片"))
      17 bold ink
    ∷ text_child
        (choose kind
          ((text "site-card", text "距你 320m · 营业至 22:00")
            ∷ (text "locker-size-card", text "40 × 45 × 50cm · 剩余 8 格")
            ∷ (text "order-card", text "万象城站点 · A-08 柜")
            ∷ [])
          (text "用于承载关键业务信息"))
        13 regular grey
    ∷ surface true 44 pale 8 [] (
        text_child
          (choose kind
            ((text "site-card", text "可用 24 格   立即选择 →")
              ∷ (text "locker-size-card", text "¥3/小时   选择柜格 →")
              ∷ [])
            (text "查看详情 →"))
          13 medium (tint 5 35 80)
        ∷ [])
    ∷ []

unfoldable pub table_row : ℕ × Text → Node
table_row (index, line) =
    surface true 42 (if index == 0 then pale else white) 4 []
      (text_child line 13 (if index == 0 then medium else regular) (tint 15 20 28) ∷ [])

unfoldable pub table_children : List Node
unfolding table_row
table_children =
    text_child (text "订单数据表") 17 bold ink
    ∷ map table_row (
        indexed 0 (
          text "订单号        用户        状态        金额"
          ∷ text "SPL001      张先生      寄存中      ¥18.00"
          ∷ text "SPL002      李女士      待取件      ¥12.00"
          ∷ text "SPL003      王先生      已完成      ¥24.00"
          ∷ []))

unfoldable pub sidebar_entry : Text → Node
sidebar_entry entry =
    if text_eq entry (text "概览")
    then text_child entry 14 medium (tint 35 65 100)
    else text_child entry 14 regular (tint 75 80 90)

unfoldable pub sidebar_children : List Node
unfolding sidebar_entry
sidebar_children =
    text_child (text "智能快递柜") 18 bold white
    ∷ map sidebar_entry
        (text "概览" ∷ text "网点管理" ∷ text "柜机管理" ∷ text "订单管理" ∷ text "支付管理" ∷ text "审计日志" ∷ [])

unfoldable pub state_children : Text → Text → Value → List Node
unfolding ellipse
state_children title detail fill =
    ellipse 24 fill ∷ text_child title 15 bold ink ∷ text_child detail 12 regular grey ∷ []

-- `content[kind]`; the last row stands for `skeleton`.
unfoldable pub state_content : Text → List Node
unfolding state_children
state_content kind =
    choose kind
      ((text "status-pill", state_children (text "寄存中") (text "订单状态正常") blue)
        ∷ (text "alert", state_children (text "设备暂时离线") (text "请选择其他网点或稍后重试") (tint 96 56 4))
        ∷ (text "result", state_children (text "支付成功") (text "正在为你分配柜格") (tint 7 72 42))
        ∷ (text "empty-state", state_children (text "暂无订单") (text "完成寄存后可在这里查看") grey)
        ∷ (text "error-state", state_children (text "开门失败") (text "请重试或联系现场客服") (tint 94 27 22))
        ∷ [])
      (state_children (text "加载中") (text "正在获取最新数据") (tint 55 62 72))

unfoldable pub dialog_children : Text → List Node
dialog_children kind =
    text_child
      (choose kind
        ((text "confirm-dialog", text "确认远程开门？") ∷ (text "bottom-sheet", text "选择寄存时长") ∷ [])
        (text "订单信息"))
      18 bold ink
    ∷ text_child
        (choose kind ((text "confirm-dialog", text "该操作将写入审计日志，请填写操作原因。") ∷ [])
          (text "请确认信息后继续操作。"))
        13 regular grey
    ∷ surface true 48 blue 8
        ((text "primaryAxisAlignItems", word (text "CENTER"))
          ∷ (text "counterAxisAlignItems", word (text "CENTER"))
          ∷ [])
        (text_child (text "确认") 14 bold white ∷ [])
    ∷ []

unfoldable pub bar_item : Text → Node
bar_item item =
    text_child item 14
      (if text_eq item (text "首页") || text_eq item (text "智能寄存") then bold else regular) ink

unfoldable pub bar_children : Text → List Node
unfolding bar_item
bar_children kind = map bar_item (
    choose kind ((text "miniapp-top-bar", text "‹" ∷ text "智能寄存" ∷ text "•••" ∷ []) ∷ [])
      (text "首页" ∷ text "订单" ∷ text "我的" ∷ []))

unfoldable pub header_item : Text → Node
header_item item =
    if text_eq item (text "查询") || text_eq item (text "1")
    then text_child item 13 medium blue
    else text_child item 13 regular (tint 20 25 33)

unfoldable pub header_children : Text → List Node
unfolding header_item
header_children kind = map header_item (
    choose kind
      ((text "admin-header", text "运营概览" ∷ text "消息 8" ∷ text "管理员" ∷ [])
        ∷ (text "filter-bar", text "全部城市 ▾" ∷ text "全部状态 ▾" ∷ text "搜索" ∷ text "查询" ∷ [])
        ∷ [])
      (text "‹ 上一页" ∷ text "1" ∷ text "2" ∷ text "3" ∷ text "下一页 ›" ∷ []))
