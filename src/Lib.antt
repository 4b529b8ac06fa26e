-- ===== src/Lib.antt =====
-- demo-t3: the auth service of the shop, the gateway before it, the email service, the error answers
-- that they share, and how the web client refreshes its tokens, keeps its cart and loads the products.
--
-- The auth service (apps/auth-service) keeps users and refresh tokens in PostgreSQL through Prisma,
-- verification tokens in Redis, and announces registrations over RabbitMQ. The gateway
-- (apps/server-nest) forwards the client's requests to it behind its guards, keeps the session in
-- cookies and serves the products; it keeps the payloads of verified tokens in Redis. The email service
-- (apps/email-service) sends the mail for each registration. All of them answer errors by code, from the
-- tables of libs/models.
--
-- Base            shared names, Boolean tests on ℕ, and lemmas on lists.
-- Errors/Codes    the codes and statuses, Errors/Tables the two tables of
--                 libs/models/src/error/error-codes-map.ts (`status_of` is ERROR_CODE_TO_HTTP_STATUS,
--                 `message_of` is ERROR_MESSAGES).
-- Errors/Filters  `get_error_response` is getErrorResponse of
--                 libs/utils-nest/src/common/filters/http-exception.filter.ts, `catch` and the legacy
--                 inference are apps/server-nest/src/app/common/filters/http-exception.filter.ts, and
--                 `prisma_catch` is apps/auth-service/src/app/common/filters/prisma-exception.filter.ts.
-- Auth/Rows       the rows of apps/auth-service/src/prisma-setup/schema.prisma and the state `World`.
-- Auth/Action     an asynchronous method is a function of the state that returns or throws; `Post` says
--                 what holds after each, and its rules follow the code.
-- Auth/Backend    the libraries and servers as the parameters `Crypto` and `Backend`; `IsBackend` is
--                 their documented behaviour, with `Fault` for what may fail at any call.
--                 Auth/Backend/InMemory has an instance, over lists.
-- Auth/TokenConfig, Auth/Permission, Auth/Tokens, Auth/Sessions, Auth/Users
--                 the methods of apps/auth-service/src/app/modules/auth/auth.service.ts with
--                 constants/auth-tokens-config.ts, services/user-operation-permission.service.ts,
--                 common/utils/jwt-user.util.ts and services/user-deletion.service.ts, each under its own
--                 name: `refresh_token` is refreshToken, `logout_all_devices` is logoutAllDevices.
-- Auth/Cleanup    services/token-cleanup.service.ts.
-- Auth/EmailVerification
--                 services/email-verification-token.service.ts, `verify_email`, and `register` and
--                 `get_me` of auth.controller.ts; Auth/Controller has the other handlers, and Auth/Device
--                 the device that they take from a request (libs/utils/src/server/device-info). The number in a link is printed by an argument;
--                 Auth/EmailVerification/Decimal has a function that prints as it is read.
-- Auth/Ownership
--                 the methods together: `Reachable` is every sequence of their calls from an empty
--                 database, and Auth/Ownership/Rules has one rule for each call of the backend.
--
-- Gateway/Http, Gateway/Calls
--                 the methods of apps/server-nest/src/app/modules/auth/auth.service.ts that call the auth
--                 service; Gateway/Relay and Gateway/Refusals follow a refusal to the client.
-- Gateway/Verify  `verify_access_token` is verifyToken of that file, with its Redis cache, over the auth
--                 service's `verify_token`.
-- Gateway/Guards  apps/server-nest/src/app/common/guards: `csrf_guard`, `access_token_guard`,
--                 `refresh_token_guard` and `roles_guard` are the canActivate of each.
-- Gateway/Cookies prepareCookieData and setCookiesFromTokens.
-- Gateway/Controller
--                 the handlers of apps/server-nest/src/app/modules/auth/auth.controller.ts; Gateway/Journey
--                 sets the gateway's sign-in over the auth service's.
-- Gateway/Products
--                 apps/server-nest/src/app/modules/products/products.service.ts.
--
-- Email           apps/email-service/src/app/modules/email/email.service.ts and
--                 modules/registration/registration-events.controller.ts, whose handler and the method that
--                 it calls are in Email/Sending; Email/Promise says what a mail and its files are to hold.
--
-- Client/Refresh  apps/client-mx/src/app/store/refresh-token-manager/refresh-token-manager.ts: `Manager` has
--                 its fields; `on_success` and `on_failure` are what follows the await of
--                 refreshTokenRequest in handleTokenRefresh and performProactiveRefresh, `on_timer` is
--                 the callback of the timeout, and `Reachable` is every interleaving of them.
-- Client/Cart     apps/client-mx/src/app/store/cart-manager/cart-manager.ts, with the arithmetic of prices
--                 as a parameter.
-- Client/Products apps/client-mx/src/app/state/hooks/use-products-infinite-query.ts over the gateway's
--                 products.
-- Client/Session  apps/client-mx/src/app/store/user-manager/user-manager.ts and
--                 http/auth-interceptor/auth-interceptor.service.ts: a `Session` holds the refresh manager;
--                 a method is one function up to its await and one from it on.
-- Client/Toast    apps/client-mx/src/app/store/toast-manager/toast-manager.ts: `reset` is the callback of
--                 the timeout that closeToast sets.
-- Client/Modal    apps/client-mx/src/app/store/modal-manager/modal-manager.ts, in the same way.
--
-- Times are milliseconds, and a method reads the clock once: `now` is its argument. Random ids are
-- arguments too. The one loop, that of the clean-up, has the readings of the clock as its fuel; one
-- more reading than there are full batches of 1000 tokens is enough. The endless list of products loads
-- its pages on fuel; one for every ten products is enough. A method runs without others in
-- between; the database's transaction is a call of `Backend`.
--
-- Not modelled: logging, metrics, HTTP and RabbitMQ transport, throttling, validation decorators, the
-- texts of the mail templates, the order service (a random number after a pause), the database modules,
-- and of the web client the React components and the extraction of error messages.
pub mod Base
pub mod Errors
pub mod Auth
pub mod Client
pub mod Email
pub mod Gateway
