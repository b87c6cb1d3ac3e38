-- ===== src/Alarm.antt =====
-- alarm-system/src: the service that keeps the tasks, their budget of time, the alarms and the notices.
pub mod Transitions
pub mod Errors
pub mod Database
pub mod AvailableTime
pub mod TaskStatus
pub mod Priority
pub mod Sanitize
pub mod Messages
pub mod Notices
pub mod Requests
pub mod NoticeRequests
pub mod AlarmRequests
pub mod Scan
pub mod Order
pub mod Scheduler
pub mod Access
pub mod Sockets
pub mod Manager
pub mod BadgeCache
