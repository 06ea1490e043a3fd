-- ===== src/Proxy/Permits.antt =====
-- src/proxy.rs: the filters that pingora calls for one request, in order, and what they do to the
-- permits and the gauges.
pub mod Claims
pub mod Filters
pub mod Held
use kse_static_rewrite_proxy.Base.{List, Bool, false, ◌≡◌, Option, some}
use kse_static_rewrite_proxy.Slice.{Bytes}
use kse_static_rewrite_proxy.Config.{EffectiveConfig}
use kse_static_rewrite_proxy.Proxy.{Admission}
use kse_static_rewrite_proxy.Proxy.Body.{response_body_filter}
use kse_static_rewrite_proxy.Proxy.Session.{Libraries, Result, ResponseHeader, Exchange}
use kse_static_rewrite_proxy.Proxy.Request.{returned, waits, request_filter, request_filter_resumed}
use kse_static_rewrite_proxy.Proxy.ResponseFilter.{response_filter, logging}
use kse_static_rewrite_proxy.Proxy.Interleaving.{Phase, World, start, Step, Reach}

pub data Stage : Type 0 where
  fresh queued open_ logged : Stage

-- A request among others: what phases these are in, and what it has come to. It comes without a
-- permit at any time, and the others may take a step at any time. The filters are called up to the
-- last, `logging`, which may come as soon as `request_filter` has returned.
pub data Life (l : Libraries) (config : EffectiveConfig)
    : List Phase → Stage → Exchange l → Type 0 where
  begins :
      (w : World l.sem) (x : Exchange l)
      → Reach l.sem (start l.sem config) w
      → x.ctx.active_permit ≡ false
      → x.admission ≡ w.admission
      → Life l config w.requests fresh x
  others :
      {rs : List Phase} {stage : Stage} {x : Exchange l} (v : World l.sem)
      → Life l config rs stage x
      → Step l.sem (record { admission = x.admission; requests = rs }) v
      → Life l config v.requests stage (record x { admission = v.admission })
  filtered :
      {rs : List Phase} {x : Exchange l} (result : Result Bool) (y : Exchange l)
      → Life l config rs fresh x
      → request_filter l config x ≡ (returned result, y)
      → Life l config rs open_ y
  enqueued :
      {rs : List Phase} {x : Exchange l} (y : Exchange l)
      → Life l config rs fresh x
      → request_filter l config x ≡ (waits, y)
      → Life l config rs queued y
  resumed :
      {rs : List Phase} {x : Exchange l} (result : Result Bool) (y : Exchange l)
      → Life l config rs queued x
      → request_filter_resumed l config x ≡ some (result, y)
      → Life l config rs open_ y
  responded :
      {rs : List Phase} {x : Exchange l} (response : ResponseHeader l)
      → Life l config rs open_ x
      → Life l config rs open_ (response_filter l config (response, x)).1.1
  bodied :
      {rs : List Phase} {x : Exchange l} (body : Option Bytes) (end_of_stream : Bool)
      → Life l config rs open_ x
      → Life l config rs open_
          (record x { ctx = (response_body_filter l.memmem x.ctx body end_of_stream).1 })
  ends :
      {rs : List Phase} {x : Exchange l} (failed : Bool)
      → Life l config rs open_ x
      → Life l config rs logged (logging l config failed x)
