-- ===== src/Lib.antt =====
-- The mini program of the smart parcel locker (frontend/apps/miniapp), with the two packages that
-- it stands on (frontend/packages/api-client and frontend/packages/domain-ui): a user creates an
-- order, pays it, opens the door of a cell to store a parcel, and opens it again to take it out.
-- Beside it, the plugin that draws the design of the program (tools/figma-plugin).
--
-- The parts. A page keeps its state, calls a method of the order client when it is tapped on, and
-- takes the order that the server replies. The client builds the request and makes the reply
-- uniform; the request function sends it over the platform and turns failures into `AppError`.
-- What a page shows and offers follows from the status of the order.
--
-- The files. Each names the code it is about in its first lines.
--   Prelude: results and errors, texts, integers, the numbers of JavaScript, URI encoding.
--   Order: frontend/packages/domain-ui/src/order.ts (`availableOrderActions` is
--   `available_order_actions`, and so on); Order/Cast the casts to a status; Order/Timeline
--   frontend/apps/miniapp/src/components/status-timeline.tsx.
--   Money: frontend/packages/domain-ui/src/money.ts.
--   Http: frontend/packages/api-client/src/http.ts; OrderClient, SiteClient: order-client.ts
--   and site-client.ts beside it.
--   Components, Door: frontend/apps/miniapp/src/components.
--   Stores: frontend/apps/miniapp/src/stores; AppConfig: app.config.ts.
--   OrderHook: frontend/apps/miniapp/src/features/orders/use-order.ts; ScanCode:
--   frontend/apps/miniapp/src/features/scan/scan-code.ts.
--   StorePage, PickupPage, PaymentPage, OverduePage, ConfirmPage, DetailPage: the pages store,
--   pickup, payment, overdue, order-confirm and order-detail of frontend/apps/miniapp/src/pages.
--   SiteView: frontend/packages/domain-ui/src/site.ts and, of
--   frontend/apps/miniapp/src/features/sites, site-card.tsx; Location, SitesHook: location.ts and
--   use-sites.ts there.
--   HomePage, SitesPage, SiteDetail, LockerSelection, OrdersPage: the pages home, sites and location,
--   site-detail, locker-selection, orders and me.
--   Figma: tools/figma-plugin/src, the domain; Figma/Catalog, Figma/Contents: its tables;
--   Figma/Stages, Requests, ScreenRequests, Runs, Foundations: its stages over the port and what
--   they ask for; Figma/Tokens, Color, FoundationContent: domain/tokens.ts with the colours, and
--   domain/foundation-content.ts; Figma/Document, Adapter, Drawing: figma/adapter.ts, its lookup of
--   resources, its upserts, and what it draws; Figma/Entry: code.ts.
--   Tests: the theorems at concrete inputs, and runs of the model.
--
-- How the code is modelled.
--   A string is the list of its UTF-16 code units (`Text`).
--   A number is an integer, or `other` with the text that it prints as: a fraction, NaN or an
--   infinity; -0 is 0. Sums and parsed numbers are rounded to the nearest double: the spacing of
--   the doubles is searched with fuel 971, the number of its doublings up to the largest double.
--   The quotient in `format_fen` is the nearest double, and a number of yuan is printed as the code
--   prints it, with an exponent from 10^21 on; other integers are printed as below 10^21. Printing n
--   has fuel n + 1, more than n has digits, and its shortest digits are searched with as much fuel
--   as it has digits.
--   A status is one of the nine, or another string that a cast lets in; the names of inherited
--   properties are kept apart, since a lookup in an object literal finds them.
--   A reply has the types that the code declares for it. The calls of the platform, its
--   storage and its scan are parameters, or events that carry what they settle with.
--   A handler is split at each `await`: one part runs when the user taps, the other when the
--   promise settles, in any order with other events. A tap does nothing where the screen does not
--   offer it, and a promise settles only if it is open. React renders between two events.
--   Arithmetic on numbers that are no integers is a parameter (`Floats`), and so is the number that
--   a text denotes; on integers both are written out. `toFixed` is modelled for quotients of
--   integers up to 2^53, over exact doubles.
--   An effect of React runs where a value that it depends on has changed. The stores are shared by
--   the pages, so an event of a page may be a change of a store by another one. The requests of the
--   hook over the sites are kept apart, since their replies may come in any order.
--   A call of the storage does not throw, but for the one that stores the order of the confirmation
--   page. The router hands the parameters of a page over as they stand in the address.
--   A call of the plugin's port returns the new file beside its result, also where it fails.
--   The API of Figma is a parameter: the file is a state, whose resources are listed by their ids, and
--   the calls come with what its documentation says of them (`Document`, `Calls`, `NodeCalls`). A creation adds a
--   resource under a new id at the end of its list; the other calls keep the lists. A creation and a
--   change of a name do not throw; the loading of a font may, and a drawing then stops with what it
--   has drawn. To write in a font that no call has loaded does not throw in the model. Throughout one drawing a font is loaded, or refused, in the same way.
--   What is drawn is the list of the children of a node, with the properties that were set; the sizes
--   of a frame are natural numbers, and a screen of the administration is wider than its sidebar.
--   A fraction is exact: its top and its bottom.
--   The page for the pick-up has one scan at a time, as the platform shows one.
--
-- Not modelled: class names, layout and styles; navigation that leaves a page behind, but for the
-- details of an order and the routes that a tap opens; the texts of help on the page of the user; of
-- the plugin, which page the editor shows; the server.
pub mod Prelude
pub mod Order
pub mod Money
pub mod Http
pub mod OrderClient
pub mod SiteClient
pub mod SiteView
pub mod Location
pub mod Components
pub mod Door
pub mod AppConfig
pub mod OrderHook
pub mod SitesHook
pub mod SitesPage
pub mod HomePage
pub mod SiteDetail
pub mod LockerSelection
pub mod OrdersPage
pub mod Figma
pub mod Stores
pub mod ScanCode
pub mod PaymentPage
pub mod OverduePage
pub mod ConfirmPage
pub mod DetailPage
pub mod StorePage
pub mod PickupPage
mod Tests
