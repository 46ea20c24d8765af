-- ===== src/Figma/Contents.antt =====
-- tools/figma-plugin/src/domain/screen-content.ts: the texts of the screens. The keys are those of the
-- catalogue; a key that is the name of an inherited property is left out.
use smart_parcel_locker.Prelude.{Text, text, text_eq, List, [], ◌∷◌, ◌++◌, if◌then◌else◌}

-- `miniAppScreenSections`
unfoldable pub mini_app_screen_sections : Text → List Text
mini_app_screen_sections key =
    if text_eq key (text "screen/miniapp/home")
    then text "上海市 · 定位成功｜切换城市"
      ∷ text "搜索寄存点｜输入商场、地铁站或地址"
      ∷ text "附近寄存点｜万象城 320m · 可用24格"
      ∷ text "当前订单｜A-08 柜 · 寄存中 · 已使用2小时"
      ∷ text "快捷服务｜订单 · 取件 · 客服 · 帮助"
      ∷ []
    else if text_eq key (text "screen/miniapp/location")
    then text "当前城市｜上海市"
      ∷ text "定位服务｜已获得位置权限"
      ∷ text "热门城市｜上海 · 北京 · 深圳 · 杭州"
      ∷ text "城市列表｜按拼音快速查找"
      ∷ []
    else if text_eq key (text "screen/miniapp/nearby-sites")
    then text "附近寄存点｜共找到12个站点"
      ∷ text "筛选条件｜距离 · 营业中 · 有空柜"
      ∷ text "万象城站点｜320m · 可用24格 · 营业至22:00"
      ∷ text "世纪大道地铁站｜680m · 可用8格 · 24小时"
      ∷ []
    else if text_eq key (text "screen/miniapp/site-detail")
    then text "万象城智能寄存点｜营业中"
      ∷ text "站点地址｜世纪大道88号B1层"
      ∷ text "柜格库存｜小号12 · 中号8 · 大号4"
      ∷ text "服务说明｜监控覆盖 · 客服在线"
      ∷ text "主要操作｜选择柜格"
      ∷ []
    else if text_eq key (text "screen/miniapp/locker-duration")
    then text "选择柜格｜小号 · 中号 · 大号"
      ∷ text "中号柜格｜40×45×50cm · 剩余8格"
      ∷ text "寄存时长｜2小时"
      ∷ text "费用预估｜租金¥6 · 押金¥20"
      ∷ text "主要操作｜确认选择"
      ∷ []
    else if text_eq key (text "screen/miniapp/order-confirm")
    then text "订单确认｜万象城站点 A-08"
      ∷ text "寄存信息｜中号柜 · 2小时"
      ∷ text "费用明细｜租金¥6 · 押金¥20 · 优惠-¥2"
      ∷ text "应付金额｜¥24.00"
      ∷ text "主要操作｜同意协议并支付"
      ∷ []
    else if text_eq key (text "screen/miniapp/payment")
    then text "支付宝支付｜安全支付环境"
      ∷ text "订单金额｜¥24.00"
      ∷ text "支付状态｜等待支付"
      ∷ text "支付说明｜支付成功后将分配柜格"
      ∷ text "主要操作｜立即支付"
      ∷ []
    else if text_eq key (text "screen/miniapp/store-door")
    then text "存件开门｜A区08号柜"
      ∷ text "设备连接｜柜机在线"
      ∷ text "操作进度｜正在发送开门指令"
      ∷ text "安全提示｜放入物品后请关闭柜门"
      ∷ text "异常操作｜重试 · 更换柜格 · 联系客服"
      ∷ []
    else if text_eq key (text "screen/miniapp/orders")
    then text "我的订单｜当前 · 历史"
      ∷ text "寄存中｜万象城 A-08 · 已使用2小时"
      ∷ text "待取件｜世纪大道站 B-12 · 取件码 6382"
      ∷ text "已完成｜陆家嘴站 C-03 · ¥18.00"
      ∷ []
    else if text_eq key (text "screen/miniapp/order-detail")
    then text "订单详情｜SPL20260717001"
      ∷ text "状态时间线｜已支付 → 已存入 → 待取件"
      ∷ text "网点柜格｜万象城 A-08"
      ∷ text "费用信息｜已付¥24 · 押金¥20"
      ∷ text "可执行操作｜发起取件 · 联系客服"
      ∷ []
    else if text_eq key (text "screen/miniapp/overdue-payment")
    then text "订单已超时｜超出免费时长1小时"
      ∷ text "超时费用｜¥3.00"
      ∷ text "取件限制｜补缴成功后可开门"
      ∷ text "费用说明｜按实际超时时长计算"
      ∷ text "主要操作｜立即补缴"
      ∷ []
    else if text_eq key (text "screen/miniapp/pickup")
    then text "取件｜A区08号柜"
      ∷ text "取件码｜6382"
      ∷ text "设备状态｜在线 · 可开门"
      ∷ text "安全提示｜取出物品后请关闭柜门"
      ∷ text "主要操作｜打开柜门"
      ∷ []
    else if text_eq key (text "screen/miniapp/profile")
    then text "个人中心｜任继陶"
      ∷ text "账户服务｜优惠券 · 发票 · 支付记录"
      ∷ text "帮助服务｜使用指南 · 在线客服"
      ∷ text "隐私安全｜协议 · 权限设置"
      ∷ text "账户操作｜退出登录"
      ∷ []
    else text "页面内容｜等待配置" ∷ text "主要操作｜继续" ∷ text "帮助｜联系客服" ∷ text "状态｜正常" ∷ []

-- `adminScreenSections`
unfoldable pub admin_screen_sections : Text → List Text
admin_screen_sections key =
    if text_eq key (text "screen/admin/login")
    then text "智能快递柜运营平台｜管理员登录"
      ∷ text "账号信息｜手机号或邮箱"
      ∷ text "安全验证｜密码 · 验证码"
      ∷ text "权限不足｜申请访问权限"
      ∷ []
    else if text_eq key (text "screen/admin/dashboard")
    then text "核心指标｜今日订单1,286 · 营收¥18,620"
      ∷ text "设备在线率｜98.6% · 离线8台"
      ∷ text "柜格使用率｜72.4% · 高峰14:00"
      ∷ text "订单趋势｜近7日订单与收入"
      ∷ text "告警摘要｜开门失败3 · 柜门未关5"
      ∷ []
    else if text_eq key (text "screen/admin/sites")
    then text "网点管理｜共128个网点"
      ∷ text "筛选｜城市 · 营业状态 · 关键词"
      ∷ text "网点列表｜地址 · 柜机数 · 可用柜格"
      ∷ text "网点详情｜营业时间 · 联系人 · 服务状态"
      ∷ text "操作｜新增网点 · 编辑 · 停用"
      ∷ []
    else if text_eq key (text "screen/admin/devices")
    then text "柜机管理｜在线562 · 离线8"
      ∷ text "设备筛选｜网点 · 协议 · 网络状态"
      ∷ text "柜格状态｜空闲 · 锁定 · 占用 · 异常"
      ∷ text "设备告警｜心跳超时 · 柜门未关"
      ∷ text "高风险操作｜远程开门 · 重启 · 隔离"
      ∷ []
    else if text_eq key (text "screen/admin/orders")
    then text "订单管理｜今日1,286笔"
      ∷ text "筛选｜订单号 · 状态 · 网点 · 时间"
      ∷ text "订单列表｜用户 · 柜格 · 金额 · 状态"
      ∷ text "订单详情｜状态时间线 · 支付 · 设备事件"
      ∷ text "售后操作｜退款 · 补偿 · 联系用户"
      ∷ []
    else if text_eq key (text "screen/admin/payments")
    then text "支付管理｜今日收款¥18,620"
      ∷ text "支付单｜成功 · 处理中 · 失败"
      ∷ text "退款单｜待处理 · 已退款 · 退款失败"
      ∷ text "资金流水｜只追加不可修改"
      ∷ text "风险告警｜金额不一致 · 重复回调"
      ∷ []
    else if text_eq key (text "screen/admin/notifications")
    then text "通知管理｜今日发送8,642条"
      ∷ text "渠道状态｜站内信 · 短信 · 邮件 · 回调"
      ∷ text "投递记录｜成功 · 重试中 · 失败"
      ∷ text "模板管理｜支付 · 取件 · 超时 · 设备异常"
      ∷ text "人工处理｜重试 · 补发 · 升级"
      ∷ []
    else if text_eq key (text "screen/admin/permissions")
    then text "权限管理｜管理员42人"
      ∷ text "角色｜运营管理员 · 网点管理员 · 审计员"
      ∷ text "权限矩阵｜查看 · 编辑 · 高风险操作"
      ∷ text "成员管理｜邀请 · 停用 · 重置会话"
      ∷ text "安全要求｜最小权限 · 操作留痕"
      ∷ []
    else if text_eq key (text "screen/admin/audit")
    then text "审计日志｜不可删除或修改"
      ∷ text "筛选｜操作者 · 动作 · 对象 · 结果"
      ∷ text "日志字段｜时间 · trace ID · IP · 原因"
      ∷ text "高风险记录｜开门 · 重启 · 隔离 · 回滚"
      ∷ text "导出｜脱敏审计报表"
      ∷ []
    else text "页面概览｜等待配置" ∷ text "筛选条件｜全部" ∷ text "数据列表｜暂无数据" ∷ text "操作｜刷新" ∷ []

-- `stateDescription`
unfoldable pub state_description : Text → Text
state_description key =
    if text_eq key (text "loading")
    then text "加载中｜正在获取最新数据"
    else if text_eq key (text "empty")
    then text "暂无数据｜调整筛选条件或稍后再试"
    else if text_eq key (text "network-failure")
    then text "网络连接失败｜检查网络后重试"
    else if text_eq key (text "payment-processing")
    then text "支付处理中｜请勿重复支付"
    else if text_eq key (text "payment-failure")
    then text "支付失败｜重新支付或更换方式"
    else if text_eq key (text "payment-success")
    then text "支付成功｜正在分配柜格"
    else if text_eq key (text "cell-contention")
    then text "柜格已被占用｜重新选择可用柜格"
    else if text_eq key (text "device-offline")
    then text "设备离线｜选择其他网点或联系客服"
    else if text_eq key (text "door-open-failure")
    then text "开门失败｜重试或更换柜格"
    else if text_eq key (text "door-not-closed")
    then text "柜门未关闭｜请确认柜门已关好"
    else if text_eq key (text "overdue-payment")
    then text "订单已超时｜补缴后继续取件"
    else if text_eq key (text "permission-denied")
    then text "权限不足｜联系管理员申请权限"
    else key ++ text "｜查看详情"
